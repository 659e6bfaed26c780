-- ===== src/Session/Inbound/Acked.antt =====
-- `ack_qos2_inbound` of oximqtt/src/session.rs where there is room for the identifier, which the
-- window does not have yet.
use oximqtt.Base.{
  ℕ, ◌+◌, ◌≤◌, ◌≡◌, refl, Bool, true, false, ◌||◌, some, ◌==◌, ==_iff, if◌then◌else◌, Result, ok,
  err, arith, Result-cases, Bool-cases, inl, inr, ◌∙◌, sym, subst,
}
use oximqtt.Codec.Qos.{exactly_once}
use oximqtt.Inflight
use oximqtt.Inflight.{InInflight}
use oximqtt.Inflight.Window
use oximqtt.Inflight.Window.{add-IsValid}
use oximqtt.Inflight.Removed.{add-room, contains-add}
use oximqtt.Types.{PublishResult, is_success}
use oximqtt.Session.{
  Publish, Reason, publish_received, Env, SessionState, M, publish, send, ◌>>=◌, bind-ok, bind-err,
  by_result,
}
use oximqtt.Session.Inbound.{add_inflight, admit, remove_inflight, send_received, ack_qos2_inbound}
use oximqtt.Session.Inbound.Published.{deliveries, releases, is_for, publish_lem}

-- While its release is awaited an identifier may be delivered once more than it was released.
abbrev pub IsTallied : ℕ → SessionState → Type 0
IsTallied pid s =
    deliveries pid s.trace
    ≤ releases pid s.trace + (if Inflight.contains pid s.in_inflight then 1 else 0)

-- At the end of a session that met an error: at most once more.
abbrev pub IsOnce : ℕ → SessionState → Type 0
IsOnce pid s = deliveries pid s.trace ≤ releases pid s.trace + 1

abbrev pub Tallied {ℓ} : {A : Type ℓ} → ℕ → Result Reason A × SessionState → Type 0
Tallied pid (r, s) = elim r [ ok _ ↦ IsTallied pid s | err _ ↦ IsOnce pid s ]

pub IsTallied-IsOnce : (pid : ℕ) (s : SessionState) → IsTallied pid s → IsOnce pid s
IsTallied-IsOnce pid s h = ground arith

-- A message of QoS 2 that carries this identifier.
abbrev pub Carries : ℕ → Publish → Type 0
Carries pid p = (p.inner.packet_id ≡ some pid) × (p.inner.qos ≡ exactly_once)

pub is_for-Carries : (j pid : ℕ) (p : Publish) → Carries pid p → is_for j p ≡ (pid == j)
is_for-Carries j pid p (e, q) = rw (e, q) refl

-- A valid window, of which only the identifier may be new.
abbrev pub Admits : ℕ → InInflight → InInflight → Type 0
Admits pid w w' =
    Window.IsValid w'
    × ((j : ℕ)
        → (j == pid) ≡ false
        → Inflight.contains j w ≡ false
        → Inflight.contains j w' ≡ false)

-- A statement on the call that ended well.
abbrev pub IfOk : Result Reason (Unit {0}) → Type 0 → Type 0
IfOk (ok _) P = P
IfOk (err _) P = Unit {0}

-- What an acknowledgement leaves: the deferred messages, a valid window, of which only the
-- identifier may be new, and the tally of every identifier.
abbrev pub Acks : ℕ → SessionState → Result Reason (Unit {0}) × SessionState → Type 0
Acks pid s (r, s') =
    (s'.qos2_pending ≡ s.qos2_pending)
    × IfOk r (Admits pid s.in_inflight s'.in_inflight)
    × ((j : ℕ) → IsTallied j s → Tallied j (r, s'))

-- What an answer leaves, which is sent or ends the session.
abbrev pub Answers : SessionState → Result Reason (Unit {0}) × SessionState → Type 0
Answers s (r, s') =
    (s'.qos2_pending ≡ s.qos2_pending)
    × IfOk r (s'.in_inflight ≡ s.in_inflight)
    × ((j : ℕ) → IsTallied j s → Tallied j (r, s'))

Admits-sent :
    (pid : ℕ) (w w' v : InInflight) (r : Result Reason (Unit {0}))
    → IfOk r (v ≡ w')
    → Admits pid w w'
    → IfOk r (Admits pid w v)
Admits-sent pid w w' v (ok u) e a = subst (Admits pid w) (sym e) a
Admits-sent pid w w' v (err z) e a = tt

module _ (env : Env) where
  pub send_received_lem :
      (pid : ℕ) (res : PublishResult) (added : Bool) (s : SessionState)
      → Answers s (send_received env pid res added s)
  unfolding send_received send remove_inflight deliveries releases
  send_received_lem pid res added s =
      let s' = (send env (publish_received pid res) s).1 in
      elim (Result-cases (env.send s.trace (publish_received pid res))) [
        | inl (u, h) ↦
            let q : send_received env pid res added s ≡ (ok u, s') = elim (Bool-cases added) [
              | inl a ↦ rw (send_received, send, h, a) refl
              | inr a ↦ rw (send_received, send, h, a) refl
            ] in
            subst (Answers s) (sym q) (refl, refl, λ j t. t)
        | inr (e, h) ↦ elim (Bool-cases added) [
          | inl a ↦
              let q : send_received env pid res added s ≡ (err e, remove_inflight pid s') =
                rw (send_received, send, h, a) refl in
              subst (Answers s) (sym q) (refl, tt, λ j t. IsTallied-IsOnce j s t)
          | inr a ↦
              let q : send_received env pid res added s ≡ (err e, s') =
                rw (send_received, send, h, a) refl in
              subst (Answers s) (sym q) (refl, tt, λ j t. IsTallied-IsOnce j s t)
        ]
      ]

-- The window is valid and has room for the identifier, which it does not have.
abbrev pub HasRoom : ℕ → SessionState → Type 0
HasRoom pid s =
    Window.IsValid s.in_inflight
    × (Inflight.is_full s.in_inflight ≡ false)
    × (Inflight.contains pid s.in_inflight ≡ false)

module _ (env : Env) (pid : ℕ) (p : Publish) (s : SessionState) (c : Carries pid p) where
  -- The tally of the identifier where it is not in the window.
  tally_fresh :
      (j : ℕ)
      → HasRoom pid s
      → IsTallied j s
      → let s' = (publish env p s).1 in
        deliveries j s'.trace
        ≤ releases j s'.trace + (if (j == pid) || Inflight.contains j s.in_inflight then 1 else 0)
  tally_fresh j (_, _, f) t =
      let (k, d, _) = publish_lem env j p s in
      let q = is_for-Carries j pid p c in ground (arith, ==_iff j pid)

  abbrev rest : PublishResult → M (Unit {0})
  rest res = admit pid res >>= send_received env pid res

  ack-failed :
      (e : Reason)
      → HasRoom pid s
      → (publish env p s).0 ≡ err e
      → Acks pid s (ack_qos2_inbound env pid p s)
  unfolding ack_qos2_inbound
  ack-failed e r h =
      let s' = (publish env p s).1 in
      let (k, _, _) = publish_lem env pid p s in
      let q = bind-err (publish env p) rest (by_result (publish env p s) h) in
      subst (Acks pid s) (sym q) (k.1, tt, λ j t. let d = tally_fresh j r t in ground arith)

  ack-refused :
      (res : PublishResult)
      → HasRoom pid s
      → (publish env p s).0 ≡ ok res
      → is_success res ≡ false
      → Acks pid s (ack_qos2_inbound env pid p s)
  unfolding ack_qos2_inbound admit
  ack-refused res r h a =
      let s' = (publish env p s).1 in
      let (k, _, _) = publish_lem env pid p s in
      let (l, m, t) = send_received_lem env pid res false s' in
      let q : ack_qos2_inbound env pid p s ≡ send_received env pid res false s' =
        bind-ok (publish env p) rest (by_result (publish env p s) h)
        ∙ bind-ok (admit pid res) (send_received env pid res) (rw (admit, a) refl) in
      subst (Acks pid s) (sym q) (
        l ∙ k.1,
        Admits-sent pid s.in_inflight s'.in_inflight _ _ m (rw k.0 (r.0, λ j n z. z)),
        λ j u. t j (
            let (kj, _, d) = publish_lem env j p s in
            let e : deliveries j s'.trace ≡ deliveries j s.trace = d (rw (h, a) refl) in
            ground arith),
      )

  ack-accepted :
      (res : PublishResult)
      → HasRoom pid s
      → (publish env p s).0 ≡ ok res
      → is_success res ≡ true
      → Acks pid s (ack_qos2_inbound env pid p s)
  unfolding ack_qos2_inbound admit add_inflight
  ack-accepted res (v, f, fresh) h a =
      let s' = (publish env p s).1 in
      let (k, _, _) = publish_lem env pid p s in
      let w = (Inflight.add pid exactly_once s.in_inflight).1 in
      let s'' = record s' { in_inflight = w } in
      let (l, m, t) = send_received_lem env pid res true s'' in
      let b = add-room pid exactly_once s.in_inflight f fresh in
      let q =
        bind-ok (publish env p) rest (by_result (publish env p s) h)
        ∙ bind-ok (admit pid res) (send_received env pid res)
            (rw (admit, a, add_inflight, k.0, b) refl) in
      subst (Acks pid s) (sym q) (
        l ∙ k.1,
        Admits-sent pid s.in_inflight w _ _ m (
          add-IsValid pid exactly_once s.in_inflight v,
          λ j n z. rw (contains-add pid j exactly_once s.in_inflight f fresh, n) z,
        ),
        λ j u. t j (
            let d = tally_fresh j (v, f, fresh) u in
            rw (contains-add pid j exactly_once s.in_inflight f fresh) d),
      )

  -- Where the window has room for the identifier and does not have it, `ack_qos2_inbound` keeps the
  -- deferred messages, the validity of the window and the tally of every identifier.
  pub ack_qos2_inbound_lem : HasRoom pid s → Acks pid s (ack_qos2_inbound env pid p s)
  ack_qos2_inbound_lem r = elim (Result-cases (publish env p s).0) [
    | inr (e, h) ↦ ack-failed e r h
    | inl (res, h) ↦ elim (Bool-cases (is_success res)) [
      | inl a ↦ ack-accepted res r h a
      | inr a ↦ ack-refused res r h a
    ]
  ]
