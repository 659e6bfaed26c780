-- ===== src/Queue/Calls/Locks.antt =====
-- What `push` and `pop` of oximqtt/src/queue.rs do under the lock: the order and the number of items.
use oximqtt.Base.{
  ℕ, suc, ◌+◌, ◌≤◌, ◌≡◌, refl, Bool, Option, none, some, List, [], ◌∷◌, ◌++◌, length, Result, ok,
  err, if◌then◌else◌, arith, ap, sym, ◌∙◌, append_assoc, length-append, Bool-cases, leb, inl, inr,
}
use oximqtt.Queue.{push, pop}
use oximqtt.Queue.Calls.{
  Call, starting, evicting, retrying, finished, Shared, Action, begin_send, go_on, receive, leaving,
  push_shared, pop_shared,
}

module _ {ℓ} {T : Type ℓ} where
  -- How many items of a list a test takes.
  unfoldable pub count : (T → Bool) → List T → ℕ
  count p [] = 0
  count p (x ∷ xs) = let n = count p xs in if p x then suc n else n

  pub count-append : (p : T → Bool) (xs ys : List T) → count p (xs ++ ys) ≡ count p xs + count p ys
  unfolding count
  count-append p [] ys = omega arith
  count-append p (x ∷ xs) ys = ground (arith, count-append p xs ys)

  abbrev pub of_option : Option T → List T
  of_option none = []
  of_option (some v) = v ∷ []

  abbrev pub of_result : Result T (Unit {0}) → List T
  of_result (ok u) = []
  of_result (err v) = v ∷ []

  pub count-leaving :
      (p : T → Bool) (o : Option T) (xs : List T)
      → count p (leaving o xs) ≡ count p xs + count p (of_option o)
  unfolding count
  count-leaving p none xs = omega arith
  count-leaving p (some v) xs = count-append p xs (v ∷ [])

  -- The items that a call has in hand, gave back or dropped.
  abbrev pub in_hand : Call T → List T
  in_hand (starting v) = v ∷ []
  in_hand (evicting v) = v ∷ []
  in_hand (retrying v removed) = v ∷ of_option removed
  in_hand (finished r dropped) = of_result r ++ of_option dropped

  unfoldable pub all_in_hand : List (Call T) → List T
  all_in_hand [] = []
  all_in_hand (c ∷ cs) = in_hand c ++ all_in_hand cs

  -- The items that the actions hand to `send`.
  unfoldable pub begun : List (Action T) → List T
  begun [] = []
  begun (begin_send v ∷ rest) = v ∷ begun rest
  begun (go_on i ∷ rest) = begun rest
  begun (receive ∷ rest) = begun rest

module _ {ℓ κ} {T : Type ℓ} {C : Type κ} where
  -- The queue is within its capacity, and what entered it is what left it and then what it holds.
  pub record IsOrdered (s : Shared T C) : Type ℓ where
    pub bounded : length s.queue.inner ≤ s.queue.cap
    pub in_order : s.entered ≡ s.taken ++ s.queue.inner

  pub push_shared-IsOrdered : (v : T) (s : Shared T C) → IsOrdered s → IsOrdered (push_shared v s).1
  unfolding push_shared push
  push_shared-IsOrdered v s h = elim (Bool-cases (leb s.queue.cap (length s.queue.inner))) [
    | inl b ↦ rw (push_shared, push, b) h
    | inr b ↦
        rw (push_shared, push, b)
          (record {
            bounded = let l = length-append s.queue.inner (v ∷ []) in ground arith;
            in_order =
                ap (λ xs. xs ++ (v ∷ [])) h.in_order ∙ append_assoc s.taken s.queue.inner (v ∷ []);
          })
  ]

  pub push_shared-count :
      (p : T → Bool) (v : T) (s : Shared T C)
      → let (r, s') = push_shared v s in
        count p s'.queue.inner + count p (of_result r) ≡ count p s.queue.inner + count p (v ∷ [])
  unfolding push_shared push count
  push_shared-count p v s = elim (Bool-cases (leb s.queue.cap (length s.queue.inner))) [
    | inl b ↦ rw (push_shared, push, b) refl
    | inr b ↦
        let c = count-append p s.queue.inner (v ∷ []) in
        rw (push_shared, push, b) (omega (arith, c))
  ]

  -- The shared state by its parts, to compute on the items.
  abbrev parts : Shared T C → List T → Shared T C
  parts s inner = record {
    queue = record {
      cap = s.queue.cap;
      inner = inner;
      has_on_push = s.queue.has_on_push;
      has_on_pop = s.queue.has_on_pop;
      events = s.queue.events;
    };
    tx = s.tx;
    entered = s.entered;
    taken = s.taken;
  }

  pop_parts-IsOrdered :
      (s : Shared T C) (xs : List T)
      → IsOrdered (parts s xs)
      → IsOrdered (pop_shared (parts s xs)).1
  unfolding pop_shared pop
  pop_parts-IsOrdered s [] h = h
  pop_parts-IsOrdered s (x ∷ xs) h = record {
    bounded = let l = h.bounded in omega arith;
    in_order = h.in_order ∙ sym (append_assoc s.taken (x ∷ []) xs);
  }

  pub pop_shared-IsOrdered : (s : Shared T C) → IsOrdered s → IsOrdered (pop_shared s).1
  pop_shared-IsOrdered s h = pop_parts-IsOrdered s s.queue.inner h

  pop_parts-count :
      (p : T → Bool) (s : Shared T C) (xs : List T)
      → let (r, s') = pop_shared (parts s xs) in
        count p s'.queue.inner + count p (of_option r) ≡ count p xs
  unfolding pop_shared pop count
  pop_parts-count p s [] = refl
  pop_parts-count p s (x ∷ xs) = ground arith

  pub pop_shared-count :
      (p : T → Bool) (s : Shared T C)
      → let (r, s') = pop_shared s in
        count p s'.queue.inner + count p (of_option r) ≡ count p s.queue.inner
  pop_shared-count p s = pop_parts-count p s s.queue.inner
