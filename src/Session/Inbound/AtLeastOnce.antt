-- ===== src/Session/Inbound/AtLeastOnce.antt =====
-- `process_publish` of oximqtt/src/session.rs at QoS 1: the window is left as it was.
use oximqtt.Base.{
  ℕ, ◌≡◌, refl, Bool, true, false, inl, inr, if◌then◌else◌, Result, ok, err, arith, Result-cases,
  Bool-cases, Option-cases, sym, subst, ◌∙◌, ap,
}
use oximqtt.Codec.Qos.{at_least_once}
use oximqtt.Inflight
use oximqtt.Inflight.{InInflight, is_exactly_once}
use oximqtt.Inflight.Removed.{remove-add, add-room, add-full, add-known}
use oximqtt.Session.{
  Publish, Reason, window, dropped, log, publish_ack, Env, SessionState, publish, send,
}
use oximqtt.Session.Inbound.{
  in_window, add_inflight, remove_inflight, publish_at_least_once, process_at_least_once,
}
use oximqtt.Session.Inbound.Published.{deliveries, releases, is_for, publish_lem}
use oximqtt.Session.Inbound.Drained.{IsConsistent, Handles}
use oximqtt.Session.Inbound.Handled.{Rests, Rests-Handles}

is_for-other : (j : ℕ) (p : Publish) → is_exactly_once p.inner.qos ≡ false → is_for j p ≡ false
is_for-other j p q = elim (Option-cases p.inner.packet_id) [
  | inl n ↦ rw n refl
  | inr (i, n) ↦ rw (n, q) refl
]

-- The identifier is taken back where it was let in.
abbrev retake : Bool → ℕ → SessionState → SessionState
retake added pid s = if added then remove_inflight pid s else s

Rests-retake :
    (added : Bool) (pid : ℕ) (s s' s0 : SessionState)
    → Rests s s'
    → Rests s0 (retake added pid s)
    → Rests s0 (retake added pid s')
unfolding remove_inflight
Rests-retake true pid s s' s0 (w, p, t) (w0, p0, t0) =
    (rw w w0, p ∙ p0, λ j. let a = t j in let b = t0 j in ground arith)
Rests-retake false pid s s' s0 (w, p, t) (w0, p0, t0) =
    (w ∙ w0, p ∙ p0, λ j. let a = t j in let b = t0 j in ground arith)

module _ (env : Env) where
  pub publish-Rests :
      (p : Publish) (s : SessionState)
      → is_exactly_once p.inner.qos ≡ false
      → Rests s (publish env p s).1
  publish-Rests p s q =
      let (k, _, _) = publish_lem env 0 p s in
      (
        k.0,
        k.1,
        λ j. let (kj, d, _) = publish_lem env j p s in let f = is_for-other j p q in ground arith,
      )

  -- At QoS 1 the window is the same afterwards, and nothing of QoS 2 is delivered.
  publish_at_least_once-Handles :
      (pid : ℕ) (p : Publish) (added : Bool) (s s0 : SessionState)
      → is_exactly_once p.inner.qos ≡ false
      → IsConsistent s0
      → Rests s0 (retake added pid s)
      → Handles s0 (publish_at_least_once env pid p added s)
  unfolding publish_at_least_once send deliveries releases
  publish_at_least_once-Handles pid p added s s0 q v e =
      let s' = (publish env p s).1 in
      let t = publish-Rests p s q in
      elim (Result-cases (publish env p s).0) [
        | inr (z, h) ↦
            let c : publish_at_least_once env pid p added s ≡ (err z, retake added pid s') =
              rw (publish_at_least_once, h) refl in
            subst (Handles s0) (sym c) (
              Rests-Handles s0 (retake added pid s') (err z) (Rests-retake added pid s s' s0 t e) v)
        | inl (res, h) ↦
            let (r, s'') = send env (publish_ack pid res) s' in
            let c : publish_at_least_once env pid p added s ≡ (r, retake added pid s'') =
              rw (publish_at_least_once, h) refl in
            subst (Handles s0) (sym c)
              (Rests-Handles s0 (retake added pid s'') r (Rests-retake added pid s s'' s0 t e) v)
      ]

  -- How `add` answers.
  abbrev entered : ℕ → SessionState → SessionState
  entered pid s = record s { in_inflight = (Inflight.add pid at_least_once s.in_inflight).1 }

  module _ (pid : ℕ) (p : Publish) (s : SessionState) where
    -- What is done with the answer of `add`.
    abbrev on_added :
        Result Inflight.Reason Bool × InInflight → Result Reason (Unit {0}) × SessionState
    on_added (r, w) =
        let s' = record s { in_inflight = w } in
        elim (in_window r) [
          | err e ↦ (err e, log (dropped p e) s')
          | ok added ↦ publish_at_least_once env pid p added s'
        ]

    entry-full :
        Inflight.is_full s.in_inflight ≡ true
        → process_at_least_once env pid p s ≡ (
          err (window Inflight.inflight_window_full),
          log (dropped p (window Inflight.inflight_window_full)) s,
        )
    unfolding process_at_least_once add_inflight
    entry-full f = ap on_added (add-full pid at_least_once s.in_inflight f)

    entry-known :
        Inflight.is_full s.in_inflight ≡ false
        → Inflight.contains pid s.in_inflight ≡ true
        → process_at_least_once env pid p s ≡ publish_at_least_once env pid p false s
    unfolding process_at_least_once add_inflight
    entry-known f c = ap on_added (add-known pid s.in_inflight f c)

    entry-new :
        Inflight.is_full s.in_inflight ≡ false
        → Inflight.contains pid s.in_inflight ≡ false
        → process_at_least_once env pid p s ≡ publish_at_least_once env pid p true (entered pid s)
    unfolding process_at_least_once add_inflight
    entry-new f c =
        rw (process_at_least_once, add_inflight, add-room pid at_least_once s.in_inflight f c) refl

  pub process_at_least_once-Handles :
      (pid : ℕ) (p : Publish) (s : SessionState)
      → is_exactly_once p.inner.qos ≡ false
      → IsConsistent s
      → Handles s (process_at_least_once env pid p s)
  unfolding remove_inflight deliveries releases
  process_at_least_once-Handles pid p s q v =
      let w = s.in_inflight in
      let s' = log (dropped p (window Inflight.inflight_window_full)) s in
      elim (Bool-cases (Inflight.is_full w)) [
        | inl f ↦ subst (Handles s) (sym (entry-full pid p s f)) (
            Rests-Handles s s' (err (window Inflight.inflight_window_full))
              (refl, refl, λ j. (omega arith, refl)) v)
        | inr f ↦ elim (Bool-cases (Inflight.contains pid w)) [
          | inl c ↦ subst (Handles s) (sym (entry-known pid p s f c)) (
              publish_at_least_once-Handles pid p false s s q v
                (refl, refl, λ j. (omega arith, refl)))
          | inr c ↦ subst (Handles s) (sym (entry-new pid p s f c)) (
              publish_at_least_once-Handles pid p true (entered pid s) s q v
                (remove-add pid at_least_once w f c, refl, λ j. (omega arith, refl)))
        ]
      ]
