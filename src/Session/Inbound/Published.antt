-- ===== src/Session/Inbound/Published.antt =====
-- What a publish and a reply of oximqtt/src/session.rs leave of the state, and what they add to what
-- the session has done.
use oximqtt.Base.{
  ℕ, suc, ◌+◌, ◌≤◌, ◌≡◌, refl, Bool, true, false, none, some, List, [], ◌∷◌, ◌++◌, ◌==◌,
  if◌then◌else◌, ok, err, arith, Result, not, ◌∙◌, Bool-cases, Result-cases, Option-cases, inl, inr,
}
use oximqtt.Inflight.{is_exactly_once}
use oximqtt.Types.{PublishResult, is_success, is_allow}
use oximqtt.Session.{
  Publish, Reply, publish_received, publish_complete, Effect, forwarded, replied, Env, SessionState,
  resolve_alias, refuse, forward, publish_resolved, publish_inner, publish, send, ◌>>=◌, unwrap_or,
  Reason,
}

-- A message of QoS 2 with this identifier.
abbrev pub is_for : ℕ → Publish → Bool
is_for pid p = elim p.inner.packet_id [
  | none ↦ false
  | some j ↦ if is_exactly_once p.inner.qos then j == pid else false
]

abbrev pub is_delivery : ℕ → Effect → Bool
is_delivery pid (forwarded p q) = is_for pid p
is_delivery pid _ = false

abbrev pub is_release : ℕ → Effect → Bool
is_release pid (replied (publish_complete j)) = j == pid
is_release pid _ = false

-- How many messages of QoS 2 with this identifier were forwarded.
unfoldable pub deliveries : ℕ → List Effect → ℕ
deliveries pid [] = 0
deliveries pid (e ∷ es) = if is_delivery pid e then suc (deliveries pid es) else deliveries pid es

-- How many releases of this identifier were answered.
unfoldable pub releases : ℕ → List Effect → ℕ
releases pid [] = 0
releases pid (e ∷ es) = if is_release pid e then suc (releases pid es) else releases pid es

abbrev add_answer : Effect → List ℕ → List ℕ
add_answer (replied (publish_received pid res)) xs = xs ++ (pid ∷ [])
add_answer _ xs = xs

-- The identifiers of the PUBRECs, from the first on.
unfoldable pub answered : List Effect → List ℕ
answered [] = []
answered (e ∷ es) = add_answer e (answered es)

-- The window and the deferred messages are the same, and neither a release nor a message of QoS 2 was
-- answered.
abbrev pub Keeps : ℕ → SessionState → SessionState → Type 0
Keeps pid s s' =
    (s'.in_inflight ≡ s.in_inflight)
    × (s'.qos2_pending ≡ s.qos2_pending)
    × (releases pid s'.trace ≡ releases pid s.trace)
    × (answered s'.trace ≡ answered s.trace)

abbrev pub is_refused : Result Reason PublishResult → Bool
is_refused (ok res) = not (is_success res)
is_refused (err e) = false

-- What a publish may add: a delivery of its own message, and none where the result is a refusal.
abbrev pub Adds : ℕ → Publish → SessionState → Result Reason PublishResult × SessionState → Type 0
Adds pid p s (r, s') =
    Keeps pid s s'
    × (deliveries pid s'.trace ≤ deliveries pid s.trace + (if is_for pid p then 1 else 0))
    × ((is_refused r ≡ true) → deliveries pid s'.trace ≡ deliveries pid s.trace)

resolve_alias_lem :
    (pid : ℕ) (p : Publish) (s : SessionState)
    → let s' = (resolve_alias p s).1 in
      Keeps pid s s' × (deliveries pid s'.trace ≡ deliveries pid s.trace)
unfolding resolve_alias
resolve_alias_lem pid p s = elim (Option-cases s.client_topic_aliases) [
  | inl e ↦ rw e ((refl, refl, refl, refl), refl)
  | inr (a, e) ↦ rw e ((refl, refl, refl, refl), refl)
]

module _ (env : Env) where
  publish_resolved_lem :
      (pid : ℕ) (received p : Publish) (s : SessionState)
      → Adds pid received s (publish_resolved env received p s)
  unfolding publish_resolved forward refuse deliveries releases answered
  publish_resolved_lem pid received p s = elim (Result-cases (env.delayed_publish s.trace p)) [
    | inr (e, h) ↦ rw (publish_resolved, h) ((refl, refl, refl, refl), omega arith, λ z. refl)
    | inl (q, h) ↦
        let m = unwrap_or (env.message_publish s.trace q) q in
        elim (Bool-cases (is_allow (env.message_publish_check_acl s.trace m))) [
          | inl a ↦ elim (Result-cases (env.forwards s.trace m)) [
            | inl (u, f) ↦
                rw (publish_resolved, h, a, forward, f)
                  ((refl, refl, refl, refl), ground arith, λ z. cc z)
            | inr (e, f) ↦
                rw (publish_resolved, h, a, forward, f)
                  ((refl, refl, refl, refl), ground arith, λ z. cc z)
          ]
          | inr a ↦
              rw (publish_resolved, h, a, refuse) ((refl, refl, refl, refl), omega arith, λ z. refl)
        ]
  ]

  publish_inner_lem :
      (pid : ℕ) (p : Publish) (s : SessionState) → Adds pid p s (publish_inner env p s)
  unfolding publish_inner
  publish_inner_lem pid p s = elim (Result-cases (resolve_alias p s).0) [
    | inr (e, h) ↦
        rw (publish_inner, ◌>>=◌, h)
          (let (k, d) = resolve_alias_lem pid p s in (k, omega arith, λ z. d))
    | inl (q, h) ↦
        let (k, d) = resolve_alias_lem pid p s in
        let (l, e, f) = publish_resolved_lem pid p q (resolve_alias p s).1 in
        rw (publish_inner, ◌>>=◌, h)
          ((l.0 ∙ k.0, l.1 ∙ k.1, l.2 ∙ k.2, l.3 ∙ k.3), omega arith, λ z. f z ∙ d)
  ]

  -- A publish keeps the window, the deferred messages and the releases. It forwards its own message
  -- once at most, and not at all where the result is a refusal.
  pub publish_lem : (pid : ℕ) (p : Publish) (s : SessionState) → Adds pid p s (publish env p s)
  unfolding publish
  publish_lem pid p s =
      let (k, d, f) = publish_inner_lem pid p s in
      elim (Result-cases (publish_inner env p s).0) [
        | inr (e, h) ↦ rw (publish, h) (k, d, λ z. cc z)
        | inl (res, h) ↦ elim (Bool-cases (is_success res)) [
          | inl a ↦ rw (publish, h, a) (k, d, λ z. cc (z, a))
          | inr a ↦ elim (Bool-cases res.disconnect) [
            | inl b ↦ rw (publish, h, a, b) (k, d, λ z. cc z)
            | inr b ↦ rw (publish, h, a, b) (k, d, λ z. f (ground arith))
          ]
        ]
      ]

  -- So does a reply, which is no delivery, and a release only if it is one.
  pub send_lem :
      (pid : ℕ) (r : Reply) (s : SessionState)
      → let s' = (send env r s).1 in
        (s'.in_inflight ≡ s.in_inflight)
        × (s'.qos2_pending ≡ s.qos2_pending)
        × (deliveries pid s'.trace ≡ deliveries pid s.trace)
        × (releases pid s'.trace ≡ (
            if is_release pid (replied r)
            then suc (releases pid s.trace)
            else releases pid s.trace))
  unfolding send deliveries releases answered
  send_lem pid r s = (refl, refl, refl, refl)
