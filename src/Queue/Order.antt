-- ===== src/Queue/Order.antt =====
-- Calls of oximqtt/src/queue.rs that no other call interrupts.
use oximqtt.Base.{
  subst, le_or_lt, ℕ, ◌≤◌, ◌<◌, ◌≡◌, refl, ap, sym, Bool, none, some, List, [], ◌∷◌, ◌++◌, length,
  Result, ok, err, arith, append-nil, length-append, inl, inr,
}
use oximqtt.Queue.{
  Policy, current, early, Event, on_pop, Queue, call, pushed, push, pop, send_early, send, retried,
  after_push, refused,
}

module _ {ℓ} {T : Type ℓ} where
  -- The items are at most as many as the capacity.
  abbrev pub IsBounded : Queue T → Type 0
  IsBounded q = length q.inner ≤ q.cap

  -- The item that a call gives back.
  abbrev pub given_back : Result T (Unit {0}) → List T
  given_back (ok _) = []
  given_back (err v) = v ∷ []

  push-room : (v : T) (q : Queue T) → length q.inner < q.cap → push v q ≡ (ok tt, pushed v q)
  unfolding push
  push-room v q h = ground arith

  push-full : (v : T) (q : Queue T) → q.cap ≤ length q.inner → push v q ≡ (err v, q)
  unfolding push
  push-full v q h = ground arith

  -- A full queue with its parts given, to compute on the items.
  abbrev queue : ℕ → List T → Bool → Bool → List Event → Queue T
  queue n inner a b es = record {
    cap = n;
    inner = inner;
    has_on_push = a;
    has_on_pop = b;
    events = es;
  }

  send_early-full :
      (v old : T) (n : ℕ) (rest : List T) (a b : Bool) (es : List Event)
      → length rest < n
      → send_early v (queue n (old ∷ rest) a b es)
        ≡ (err old, pushed v (queue n rest a b (call b on_pop es)))
  unfolding send_early pop
  send_early-full v old n rest a b es h =
      ap (retried (some old)) (push-room v (queue n rest a b (call b on_pop es)) h)

  -- What `send_early` gives back of a full queue and what stays are, in this order, the items that
  -- were there and the new one.
  abbrev KeepsOrder : T → List T → Result T (Unit {0}) × Queue T → Type ℓ
  KeepsOrder v inner o = (IsBounded o.1) × (given_back o.0 ++ o.1.inner ≡ inner ++ (v ∷ []))

  send_early_empty :
      (v : T) (n : ℕ) (a b : Bool) (es : List Event)
      → n ≡ 0
      → send_early v (queue n [] a b es) ≡ (err v, queue n [] a b es)
  unfolding send_early pop
  send_early_empty v n a b es h = ap (retried none) (push-full v (queue n [] a b es) (omega arith))

  send_early_parts :
      (v : T) (n : ℕ) (inner : List T) (a b : Bool) (es : List Event)
      → length inner ≡ n
      → KeepsOrder v inner (send_early v (queue n inner a b es))
  send_early_parts v n [] a b es h =
      subst (KeepsOrder v []) (sym (send_early_empty v n a b es (omega arith))) (omega arith, refl)
  send_early_parts v n (old ∷ rest) a b es h =
      subst (KeepsOrder v (old ∷ rest)) (sym (send_early-full v old n rest a b es (omega arith)))
        (omega (arith, length-append rest (v ∷ [])), refl)

  module _ {κ} {C : Type κ} (try_send : C → Bool × C) (policy_fn : T → Policy) where
    -- What a call of `send` gives back and what stays in the queue, in the order that the policy asks
    -- for.
    abbrev pub in_order : Policy → List T → List T → List T
    in_order current back inner = inner ++ back
    in_order early back inner = back ++ inner

    abbrev SendsInOrder : Policy → T → List T → Result T (Unit {0}) × (Queue T × C) → Type ℓ
    SendsInOrder p v inner o =
        (IsBounded o.1.0) × (in_order p (given_back o.0) o.1.0.inner ≡ inner ++ (v ∷ []))

    room_order :
        (p : Policy) (inner : List T) (v : T)
        → in_order p [] (inner ++ (v ∷ [])) ≡ inner ++ (v ∷ [])
    room_order current inner v = append-nil (inner ++ (v ∷ []))
    room_order early inner v = refl

    full_order :
        (v : T) (q : Queue T) (tx : C) (p : Policy)
        → length q.inner ≡ q.cap
        → SendsInOrder p v q.inner (refused try_send policy_fn tx p v q)
    full_order v q tx current h = (omega arith, refl)
    full_order v q tx early h =
        send_early_parts v q.cap q.inner q.has_on_push q.has_on_pop q.events h

    -- A call of `send` that no other interrupts keeps the queue within its capacity. Whatever the policy says, the item it
    -- gives back and the items that stay are those that were there and the new one; under `Early`
    -- the item given back comes first, under `Current` it comes last.
    pub send-in_order :
        (v : T) (q : Queue T) (tx : C)
        → IsBounded q
        → let (r, (q', tx')) = send try_send policy_fn v (q, tx) in
          (IsBounded q') × (in_order (policy_fn v) (given_back r) q'.inner ≡ q.inner ++ (v ∷ []))
    unfolding send
    send-in_order v q tx h = elim (le_or_lt q.cap (length q.inner)) [
      | inl l ↦
          subst (λ o. SendsInOrder (policy_fn v) v q.inner (after_push try_send policy_fn tx o))
            (sym (push-full v q l)) (full_order v q tx (policy_fn v) (omega arith))
      | inr l ↦
          subst (λ o. SendsInOrder (policy_fn v) v q.inner (after_push try_send policy_fn tx o))
            (sym (push-room v q l))
            (omega (arith, length-append q.inner (v ∷ [])), room_order (policy_fn v) q.inner v)
    ]
