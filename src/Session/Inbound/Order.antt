-- ===== src/Session/Inbound/Order.antt =====
-- The order in which oximqtt/src/session.rs answers the messages that it deferred.
use oximqtt.Base.{
  ℕ, ◌≡◌, refl, Bool, true, ◌&&◌, ◌⊎◌, inl, inr, List, [], ◌∷◌, ◌++◌, append-nil, append_assoc, map,
  Result, ok, err, Result-cases, Bool-cases, sym, subst, ◌∙◌, ap,
}
use oximqtt.Inflight
use oximqtt.Types.{PublishResult, is_success}
use oximqtt.Session.{
  Publish, Reason, publish_received, publish_complete, Env, SessionState, publish, send, bind-ok,
  bind-err, by_result, M, ◌>>=◌,
}
use oximqtt.Session.Inbound.{
  admit, add_inflight, remove_inflight, is_err, send_received, ack_qos2_inbound, drain,
  process_release,
}
use oximqtt.Session.Inbound.Published.{answered, publish_lem}
use oximqtt.Session.Inbound.Acked.{IfOk}
use oximqtt.Session.Inbound.Drained.{IsConsistent, after, by_ok}
use oximqtt.Session.Inbound.Handled.{process_release-Handles}

abbrev Call : Type 0
Call = Result Reason (Unit {0}) × SessionState

-- An answer to one message.
abbrev Answered : ℕ → SessionState → Call → Type 0
Answered pid s (r, s') = IfOk r (answered s'.trace ≡ answered s.trace ++ (pid ∷ []))

-- The messages up to some place of the list are answered in their order, and the rest is deferred.
abbrev InOrder : List (ℕ × Publish) → SessionState → Call → Type 0
InOrder xs s (r, s') = IfOk r (
    (done : List (ℕ × Publish)) × (xs ≡ done ++ s'.qos2_pending)
    × (answered s'.trace ≡ answered s.trace ++ map (λ x. x.0) done))

module _ (env : Env) where
  send_received-answered :
      (pid : ℕ) (res : PublishResult) (added : Bool) (s : SessionState)
      → let s' = (send_received env pid res added s).1 in
        answered s'.trace ≡ answered s.trace ++ (pid ∷ [])
  unfolding send_received send remove_inflight answered
  send_received-answered pid res added s =
      elim (Bool-cases (added && is_err (env.send s.trace (publish_received pid res)))) [
        | inl b ↦ rw (send_received, send, b) refl
        | inr b ↦ rw (send_received, send, b) refl
      ]

  admit-keeps :
      (pid : ℕ) (res : PublishResult) (s : SessionState)
      → let s' = (admit pid res s).1 in s'.trace ≡ s.trace
  unfolding admit add_inflight
  admit-keeps pid res s = elim (Bool-cases (is_success res)) [
    | inl b ↦ rw (admit, b) refl
    | inr b ↦ rw (admit, b) refl
  ]

  IfOk-of : {P : Type 0} → (r : Result Reason (Unit {0})) → P → IfOk r P
  IfOk-of (ok u) p = p
  IfOk-of (err e) p = tt

  ack-Answered :
      (pid : ℕ) (p : Publish) (s : SessionState) → Answered pid s (ack_qos2_inbound env pid p s)
  unfolding ack_qos2_inbound
  ack-Answered pid p s =
      let rest : PublishResult → M (Unit {0}) =
        λ res. admit pid res >>= send_received env pid res in
      let s' = (publish env p s).1 in
      let (k, _, _) = publish_lem env pid p s in
      elim (Result-cases (publish env p s).0) [
        | inr (e, h) ↦
            subst (Answered pid s)
              (sym (bind-err (publish env p) rest (by_result (publish env p s) h))) tt
        | inl (res, h) ↦
            let q = bind-ok (publish env p) rest (by_result (publish env p s) h) in
            elim (Result-cases (admit pid res s').0) [
              | inr (e, g) ↦
                  subst (Answered pid s)
                    (sym (
                      q
                      ∙ bind-err (admit pid res) (send_received env pid res)
                          (by_result (admit pid res s') g)))
                    tt
              | inl (b, g) ↦
                  let s'' = (admit pid res s').1 in
                  let a = send_received-answered pid res b s'' in
                  let t = admit-keeps pid res s' in
                  subst (Answered pid s)
                    (sym (
                      q
                      ∙ bind-ok (admit pid res) (send_received env pid res)
                          (by_result (admit pid res s') g)))
                    (IfOk-of _
                      (a ∙ ap (λ x. answered x ++ (pid ∷ [])) t ∙ ap (λ x. x ++ (pid ∷ [])) k.3))
            ]
      ]

  after-InOrder :
      (pid : ℕ) (p : Publish) (rest : List (ℕ × Publish)) (s : SessionState) (x : Call)
      → Answered pid s x
      → ((s' : SessionState) → InOrder rest s' (drain env rest s'))
      → InOrder ((pid, p) ∷ rest) s (after x (drain env rest))
  after-InOrder pid p rest s (err e, s') a h = tt
  after-InOrder pid p rest s (ok u, s') a h = go (drain env rest s') (h s')
    where
      go : (y : Call) → InOrder rest s' y → InOrder ((pid, p) ∷ rest) s y
      go (err e, s'') i = tt
      go (ok v, s'') (done, e, t) = (
        (pid, p) ∷ done,
        ap (◌∷◌ (pid, p)) e,
        t
            ∙ ap (λ z. z ++ map (λ x. x.0) done) a
            ∙ append_assoc (answered s.trace) (pid ∷ []) (map (λ x. x.0) done),
      )

  drain-InOrder : (xs : List (ℕ × Publish)) (s : SessionState) → InOrder xs s (drain env xs s)
  unfolding drain
  drain-InOrder [] s = ([], refl, sym (append-nil _))
  drain-InOrder ((pid, p) ∷ rest) s = elim (Bool-cases (Inflight.is_full s.in_inflight)) [
    | inl full ↦
        let s' = record s { qos2_pending = (pid, p) ∷ rest } in
        let q : drain env ((pid, p) ∷ rest) s ≡ (ok tt, s') = rw (drain, full) refl in
        subst (InOrder ((pid, p) ∷ rest) s) (sym q) ([], refl, sym (append-nil _))
    | inr room ↦
        let s0 = record s { qos2_pending = rest } in
        let x = ack_qos2_inbound env pid p s0 in
        let q : drain env ((pid, p) ∷ rest) s ≡ after x (drain env rest) = rw (drain, room) refl in
        subst (InOrder ((pid, p) ∷ rest) s) (sym q)
          (after-InOrder pid p rest s x (ack-Answered pid p s0) (λ s'. drain-InOrder rest s'))
  ]

  release-InOrder :
      (pid : ℕ) (s : SessionState) → InOrder s.qos2_pending s (process_release env pid s)
  unfolding process_release send remove_inflight answered
  release-InOrder pid s =
      let s' = (send env (publish_complete pid) (remove_inflight pid s)).1 in
      elim (Result-cases (env.send s.trace (publish_complete pid))) [
        | inr (e, h) ↦
            let q : process_release env pid s ≡ (err e, s') = rw (process_release, send, h) refl in
            subst (InOrder s.qos2_pending s) (sym q) tt
        | inl (u, h) ↦
            let q : process_release env pid s ≡ drain env s.qos2_pending s' =
              rw (process_release, send, h) refl in
            subst (InOrder s.qos2_pending s) (sym q) (drain-InOrder s.qos2_pending s')
      ]

  -- A release that does not end the session answers the deferred messages from the first on in the
  -- order in which they came, as far as the window takes them: those that are left deferred are the
  -- last ones, and if there are any, the window is full again.
  pub process_release-in_order :
      (pid : ℕ) (s : SessionState)
      → IsConsistent s
      → (process_release env pid s).0 ≡ ok tt
      → let s' = (process_release env pid s).1 in
        ((done : List (ℕ × Publish)) × (s.qos2_pending ≡ done ++ s'.qos2_pending)
          × (answered s'.trace ≡ answered s.trace ++ map (λ x. x.0) done))
        × ((s'.qos2_pending ≡ []) ⊎ (Inflight.is_full s'.in_inflight ≡ true))
  process_release-in_order pid s v o =
      let w = by_ok _ o (process_release-Handles env pid s v).0 in
      (by_ok _ o (release-InOrder pid s), w.held)
