-- ===== src/Queue/Calls.antt =====
-- `Sender::send` of oximqtt/src/queue.rs by the times it takes the lock, and calls of it and of `pop`
-- that come between one another in any order.
pub mod Locks
pub mod Accounts
pub mod Alone
use oximqtt.Base.{ℕ, zero, suc, Option, none, some, List, [], ◌∷◌, ◌++◌, Result, ok, err}
use oximqtt.Queue.{Policy, current, early, Queue, push, pop, returned}

-- A call of `send`: before its first `push`, before `pop`, before its second `push` with what `pop`
-- gave, or at its end, with what it returned and what it dropped.
pub data Call {ℓ} (T : Type ℓ) : Type ℓ where
  starting : T → Call T
  evicting : T → Call T
  retrying : T → Option T → Call T
  finished : Result T (Unit {0}) → Option T → Call T

-- The queue and the channel, and the items that entered the queue and those that left it, both in
-- this order.
pub record Shared {ℓ κ} (T : Type ℓ) (C : Type κ) : Type (ℓ ⊔ κ) where
  pub queue : Queue T
  pub tx : C
  pub entered : List T
  pub taken : List T

-- The calls of `send` that have begun, the first one first, and what the receiver and `Sender::pop`
-- have got.
pub record System {ℓ κ} (T : Type ℓ) (C : Type κ) : Type (ℓ ⊔ κ) where
  pub shared : Shared T C
  pub calls : List (Call T)
  pub received : List T

-- A call of `send` begins, the call at an index goes on up to the lock after the next, or an item is
-- taken.
pub data Action {ℓ} (T : Type ℓ) : Type ℓ where
  begin_send : T → Action T
  go_on : ℕ → Action T
  receive : Action T

module _ {ℓ} {T : Type ℓ} where
  abbrev pub entering : T → Result T (Unit {0}) → List T → List T
  entering v (ok u) xs = xs ++ (v ∷ [])
  entering v (err w) xs = xs

  abbrev pub leaving : Option T → List T → List T
  leaving none xs = xs
  leaving (some v) xs = xs ++ (v ∷ [])

module _ {ℓ κ} {T : Type ℓ} {C : Type κ} where
  -- `push` under the lock.
  unfoldable pub push_shared : T → Shared T C → Result T (Unit {0}) × Shared T C
  push_shared v s =
      let (r, q) = push v s.queue in
      (r, record { queue = q; tx = s.tx; entered = entering v r s.entered; taken = s.taken })

  -- `pop` under the lock.
  unfoldable pub pop_shared : Shared T C → Option T × Shared T C
  pop_shared s =
      let (r, q) = pop s.queue in
      (r, record { queue = q; tx = s.tx; entered = s.entered; taken = leaving r s.taken })

  module _ (try_send : C → C) (policy_fn : T → Policy) where
    abbrev pub wake : Shared T C → Shared T C
    wake s = record { queue = s.queue; tx = try_send s.tx; entered = s.entered; taken = s.taken }

    -- After a first `push` that failed.
    abbrev pub by_policy : Policy → T → Call T
    by_policy current v = finished (err v) none
    by_policy early v = evicting v

    abbrev pub first_push : Result T (Unit {0}) × Shared T C → Call T × Shared T C
    first_push (ok u, s) = (finished (ok tt) none, wake s)
    first_push (err v, s) = (by_policy (policy_fn v) v, s)

    -- After the second `push`: where it failed, what `pop` gave is dropped.
    abbrev pub second_push : Option T → Result T (Unit {0}) × Shared T C → Call T × Shared T C
    second_push removed (err v, s) = (finished (err v) removed, s)
    second_push removed (ok u, s) = (finished (returned removed) none, s)

    -- One step of `Sender::send`.
    unfoldable pub advance : Call T → Shared T C → Call T × Shared T C
    advance (starting v) s = first_push (push_shared v s)
    advance (evicting v) s = let (removed, s') = pop_shared s in (retrying v removed, s')
    advance (retrying v removed) s = second_push removed (push_shared v s)
    advance (finished r dropped) s = (finished r dropped, s)

    unfoldable pub advance_at : ℕ → List (Call T) → Shared T C → List (Call T) × Shared T C
    advance_at i [] s = ([], s)
    advance_at zero (c ∷ cs) s = let (c', s') = advance c s in (c' ∷ cs, s')
    advance_at (suc i) (c ∷ cs) s = let (cs', s') = advance_at i cs s in (c ∷ cs', s')

    unfoldable pub step : Action T → System T C → System T C
    step (begin_send v) s = record {
      shared = s.shared;
      calls = s.calls ++ (starting v ∷ []);
      received = s.received;
    }
    step (go_on i) s =
        let (cs, m) = advance_at i s.calls s.shared in
        record { shared = m; calls = cs; received = s.received }
    step receive s =
        let (r, m) = pop_shared s.shared in
        record { shared = m; calls = s.calls; received = leaving r s.received }

    -- The actions in their order.
    unfoldable pub run : List (Action T) → System T C → System T C
    run [] s = s
    run (a ∷ rest) s = run rest (step a s)
