-- ===== src/Session/Outbound/Timeouts.antt =====
-- The loop of oximqtt/src/session.rs over the messages that timed out.
use oximqtt.Base.{
  ℕ, zero, suc, ◌<◌, ◌≡◌, refl, false, none, some, ok, err, arith, Bool-cases, Option-cases,
  Result-cases, inl, inr, ap, ◌⊎◌,
}
use oximqtt.Inflight
use oximqtt.Session.Outbound.{Env, State, timed_out, log, reforward, reforward_loop}
use oximqtt.Session.Outbound.Window.{
  OutInflightMessage, DequeMap, OutInflight, front_timeout, pop_front, pop_front_timeout,
}
use oximqtt.Session.Outbound.Sizes.{reforward-same}

module _ {Q : Type 0} (d : DequeMap Q) where
  -- A round takes a message out, unless there is none that timed out in front.
  round-cases :
      (now : ℕ) (w : OutInflight Q)
      → let x = pop_front_timeout d now w in
        ((x.0 ≡ none) × (front_timeout d now x.1 ≡ false))
        ⊎ ((m : OutInflightMessage) × (x.0 ≡ some m) × (d.len x.1.queues < d.len w.queues))
  unfolding pop_front_timeout pop_front front_timeout Inflight.front_timeout
  round-cases now w = elim (Bool-cases (front_timeout d now w)) [
    | inr b ↦ rw (pop_front_timeout, b) (inl (refl, b))
    | inl b ↦ elim (Option-cases (d.front w.queues)) [
      | inl f ↦
          let c : front_timeout d now w ≡ false = rw (front_timeout, f) refl in
          absurd (ground arith)
      | inr ((k, m), f) ↦
          let l = d.len-pop_front k m w.queues f in
          rw (pop_front_timeout, b, pop_front, d.pop_front-front w.queues, f)
            (inr (m, refl, omega arith))
    ]
  ]

module _ (env : Env) {Q : Type 0} (d : DequeMap Q) where
  -- With more rounds than the window has messages, the loop ends where no message that timed out is
  -- in front, unless an error ends it.
  pub reforward_loop-drains :
      (n now : ℕ) (s : State Q)
      → d.len s.out_inflight.queues < n
      → (reforward_loop env d n now s).0 ≡ ok tt
      → front_timeout d now (reforward_loop env d n now s).1.out_inflight ≡ false
  unfolding reforward_loop
  reforward_loop-drains zero now s l e = absurd (omega arith)
  reforward_loop-drains (suc n) now s l e = elim (round-cases d now s.out_inflight) [
    | inl (f, g) ↦ rw (reforward_loop, f) g
    | inr (m, f, g) ↦
        let s' : State Q =
          log (timed_out m) (record {
            out_inflight = (pop_front_timeout d now s.out_inflight).1;
            trace = s.trace;
          }) in
        let i = reforward-same env d m s' in
        elim (Result-cases (reforward env d m s').0) [
          | inl (u, r) ↦
              let k = ap (λ (w : OutInflight Q). d.len w.queues) i in
              let t : reforward_loop env d (suc n) now s
                  ≡ reforward_loop env d n now (reforward env d m s').1 =
                rw (reforward_loop, f, r) refl in
              rw t (
                reforward_loop-drains n now (reforward env d m s').1 (omega (arith, g, k, l))
                  (rw⁻¹ t e))
          | inr (x, r) ↦
              let t : (reforward_loop env d (suc n) now s).0 ≡ err x =
                rw (reforward_loop, f, r) refl in
              absurd (ground arith)
        ]
  ]
