-- ===== src/Session/Outbound/Window.antt =====
-- oximqtt/src/inflight.rs: `OutInflight`, the messages that a session has sent at QoS 1 and 2 and
-- that its client has not acknowledged. Its map is `DequeMap` of the crate `rust_box`, a parameter
-- with what its documentation says of it. A message is kept without where it is from.
use oximqtt.Base.{
  ℕ, suc, ◌+◌, ◌-◌, ◌%◌, ◌≡◌, Bool, true, false, Option, none, some, if◌then◌else◌, ◌==◌, ltb,
  Result,
}
use oximqtt.Inflight
use oximqtt.Session.{Publish}

pub data MomentStatus : Type 0 where
  un_ack un_received un_complete : MomentStatus

pub record OutInflightMessage : Type 0 where
  pub publish : Publish
  pub status : MomentStatus
  pub update_time : ℕ

-- A map that keeps the order in which its keys came, `Q`, by packet identifiers. Where it has no
-- front it is empty, and `pop_front` takes the front out.
pub record DequeMap (Q : Type 0) : Type 0 where
  pub empty : Q
  pub len : Q → ℕ
  pub get : ℕ → Q → Option OutInflightMessage
  pub insert : ℕ → OutInflightMessage → Q → Option OutInflightMessage × Q
  pub remove : ℕ → Q → Option OutInflightMessage × Q
  pub get_mut : ℕ → (OutInflightMessage → OutInflightMessage) → Q → Q
  pub front : Q → Option (ℕ × OutInflightMessage)
  pub pop_front : Q → Option (ℕ × OutInflightMessage) × Q
  pub len-empty : len empty ≡ 0
  pub get-empty : (k : ℕ) → get k empty ≡ none
  pub insert-old : (k : ℕ) (m : OutInflightMessage) (q : Q) → (insert k m q).0 ≡ get k q
  pub get-insert :
      (k j : ℕ) (m : OutInflightMessage) (q : Q)
      → get j (insert k m q).1 ≡ (if k == j then some m else get j q)
  pub len-insert_new :
      (k : ℕ) (m : OutInflightMessage) (q : Q) → get k q ≡ none → len (insert k m q).1 ≡ suc (len q)
  pub len-insert_old :
      (k : ℕ) (m o : OutInflightMessage) (q : Q) → get k q ≡ some o → len (insert k m q).1 ≡ len q
  pub remove-old : (k : ℕ) (q : Q) → (remove k q).0 ≡ get k q
  pub get-remove : (k j : ℕ) (q : Q) → get j (remove k q).1 ≡ (if k == j then none else get j q)
  pub len-remove_new : (k : ℕ) (q : Q) → get k q ≡ none → len (remove k q).1 ≡ len q
  pub len-remove_old :
      (k : ℕ) (o : OutInflightMessage) (q : Q) → get k q ≡ some o → suc (len (remove k q).1) ≡ len q
  pub get-get_mut :
      (k j : ℕ) (f : OutInflightMessage → OutInflightMessage) (q : Q)
      → get j (get_mut k f q)
        ≡ (if k == j then elim (get j q) [ none ↦ none | some m ↦ some (f m) ] else get j q)
  pub len-get_mut :
      (k : ℕ) (f : OutInflightMessage → OutInflightMessage) (q : Q) → len (get_mut k f q) ≡ len q
  pub pop_front-front : (q : Q) → (pop_front q).0 ≡ front q
  pub pop_front-none : (q : Q) → front q ≡ none → (pop_front q).1 ≡ q
  pub get-front :
      (k : ℕ) (m : OutInflightMessage) (q : Q) → front q ≡ some (k, m) → get k q ≡ some m
  pub get-pop_front :
      (k j : ℕ) (m : OutInflightMessage) (q : Q)
      → front q ≡ some (k, m)
      → get j (pop_front q).1 ≡ (if k == j then none else get j q)
  pub len-pop_front :
      (k : ℕ) (m : OutInflightMessage) (q : Q)
      → front q ≡ some (k, m)
      → suc (len (pop_front q).1) ≡ len q

-- `out_inflights` is the share of this window in the counter of that name, which the callbacks of
-- `SessionState` for a push and a pop count up and down.
pub record OutInflight (Q : Type 0) : Type 0 where
  pub cap : ℕ
  pub interval : ℕ
  pub next : ℕ
  pub queues : Q
  pub out_inflights : ℕ

abbrev pub is_some {ℓ} : {A : Type ℓ} → Option A → Bool
is_some none = false
is_some (some a) = true

module _ {Q : Type 0} where
  abbrev pub on_push : OutInflight Q → OutInflight Q
  on_push w = record w { out_inflights = w.out_inflights + 1 }

  abbrev pub on_pop : OutInflight Q → OutInflight Q
  on_pop w = record w { out_inflights = w.out_inflights - 1 }

module _ {Q : Type 0} (d : DequeMap Q) where
  -- `OutInflight::new`, for the size and the two intervals.
  abbrev pub new : ℕ → ℕ → ℕ → OutInflight Q
  new size retry_interval expiry_interval = record {
    cap = size;
    interval = Inflight.interval retry_interval expiry_interval;
    next = 1;
    queues = d.empty;
    out_inflights = 0;
  }

  -- `OutInflight::front_timeout`
  unfoldable pub front_timeout : ℕ → OutInflight Q → Bool
  front_timeout now w =
      Inflight.front_timeout now w.interval
        (elim (d.front w.queues) [ none ↦ none | some (k, m) ↦ some m.update_time ])

  -- `OutInflight::pop_front`
  unfoldable pub pop_front : OutInflight Q → Option OutInflightMessage × OutInflight Q
  pop_front w =
      let (front, queues) = d.pop_front w.queues in
      elim front [
        | none ↦ (none, record w { queues = queues })
        | some (k, m) ↦ (some m, on_pop record w { queues = queues })
      ]

  -- `OutInflight::pop_front_timeout`
  unfoldable pub pop_front_timeout : ℕ → OutInflight Q → Option OutInflightMessage × OutInflight Q
  pop_front_timeout now w = if front_timeout now w then pop_front w else (none, w)

  -- `OutInflight::push_back`
  unfoldable pub push_back : OutInflightMessage → OutInflight Q → Option ℕ × OutInflight Q
  push_back m w = elim m.publish.inner.packet_id [
    | none ↦ (none, w)
    | some k ↦
        let (old, queues) = d.insert k m w.queues in
        let w' = on_push record w { queues = queues } in
        elim old [ none ↦ (none, w') | some o ↦ (o.publish.inner.packet_id, on_pop w') ]
  ]

  -- `OutInflight::remove`
  unfoldable pub remove : ℕ → OutInflight Q → Option OutInflightMessage × OutInflight Q
  remove k w =
      let (old, queues) = d.remove k w.queues in
      let w' = record w { queues = queues } in
      elim old [ none ↦ (none, w') | some o ↦ (some o, on_pop w') ]

  abbrev pub with_status : ℕ → MomentStatus → OutInflightMessage → OutInflightMessage
  with_status now status m = record { publish = m.publish; status = status; update_time = now }

  -- `OutInflight::update_status`, at the time `now`.
  unfoldable pub update_status : ℕ → ℕ → MomentStatus → OutInflight Q → OutInflight Q
  update_status now k status w = record w { queues = d.get_mut k (with_status now status) w.queues }

  -- `OutInflight::has_credit`, with the difference as a release build computes it.
  unfoldable pub has_credit : OutInflight Q → Bool
  has_credit w =
      ltb 0 ((w.cap + 18_446_744_073_709_551_616 - d.len w.queues) % 18_446_744_073_709_551_616)

  -- `OutInflight::next_id`
  unfoldable pub next_id : OutInflight Q → Result (Unit {0}) ℕ × OutInflight Q
  next_id w =
      let (r, next) = Inflight.next_id (λ k. is_some (d.get k w.queues)) w.next in
      (r, record w { next = next })
