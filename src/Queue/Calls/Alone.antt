-- ===== src/Queue/Calls/Alone.antt =====
-- A call of `send` of oximqtt/src/queue.rs that goes through its steps without another between them.
use oximqtt.Base.{◌≡◌, refl, Bool, Option, none, Result-cases, ◌⊎◌, inl, inr}
use oximqtt.Queue.{Policy, current, early, push, pop, send_early, send}
use oximqtt.Queue.Calls.{starting, finished, Shared, push_shared, pop_shared, advance}

module _ {ℓ κ} {T : Type ℓ} {C : Type κ} (try_send : C → Bool × C) (policy_fn : T → Policy) where
  abbrev wakes : C → C
  wakes c = (try_send c).1

  policy-cases : (p : Policy) → (p ≡ current) ⊎ (p ≡ early)
  policy-cases current = inl refl
  policy-cases early = inr refl

  -- Its three steps are the call `send`, in what it returns and in what it leaves of the queue and the
  -- channel.
  pub send-advances :
      (v : T) (s : Shared T C)
      → let (c₁, s₁) = advance wakes policy_fn (starting v) s in
        let (c₂, s₂) = advance wakes policy_fn c₁ s₁ in
        let (c₃, s₃) = advance wakes policy_fn c₂ s₂ in
        let (r, (q, tx)) = send try_send policy_fn v (s.queue, s.tx) in
        (dropped : Option T) × (c₃ ≡ finished r dropped) × (s₃.queue ≡ q) × (s₃.tx ≡ tx)
  unfolding advance push_shared pop_shared send send_early
  send-advances v s = elim (Result-cases (push v s.queue).0) [
    | inl (u, e) ↦ rw (advance, push_shared, send, e) (none, refl, refl, refl)
    | inr (w, e) ↦ elim (policy-cases (policy_fn w)) [
      | inl p ↦ rw (advance, push_shared, send, e, p) (none, refl, refl, refl)
      | inr p ↦
          let q = (pop (push v s.queue).1) in
          elim (Result-cases (push w q.1).0) [
            | inl (u, f) ↦
                rw (advance, push_shared, send, e, p, pop_shared, send_early, f)
                  (none, refl, refl, refl)
            | inr (x, f) ↦
                rw (advance, push_shared, send, e, p, pop_shared, send_early, f)
                  (q.0, refl, refl, refl)
          ]
    ]
  ]
