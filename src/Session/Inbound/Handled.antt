-- ===== src/Session/Inbound/Handled.antt =====
-- The handlers of oximqtt/src/session.rs for PUBLISH and PUBREL, and runs of them.
use oximqtt.Base.{
  ℕ, ◌≤◌, ◌≡◌, refl, Bool, true, false, inl, inr, [], ◌∷◌, ◌++◌, length, length-append, leb, ==_iff,
  if◌then◌else◌, Result, ok, err, arith, ◌∙◌,
}
use oximqtt.Inflight
use oximqtt.Inflight.{InInflight, is_exactly_once}
use oximqtt.Inflight.Window.{remove-IsValid}
use oximqtt.Inflight.Removed.{contains-remove}
use oximqtt.Types.{PublishResult, publish_success}
use oximqtt.Session.{Publish, Reason, publish_received, publish_complete, Env, SessionState, send}
use oximqtt.Session.Inbound.{
  ack_qos2_inbound, is_pending, session_qos2_pending_cap, remove_inflight, drain,
  process_exactly_once, process_release,
}
use oximqtt.Session.Inbound.Published.{deliveries, releases}
use oximqtt.Session.Inbound.Acked.{
  Admits, Carries, IfOk, IsTallied, IsTallied-IsOnce, Tallied, ack_qos2_inbound_lem,
}
use oximqtt.Session.Inbound.Drained.{
  IsConsistent, Handles, AreDeferred-append, AreDeferred-remove, after-Handles, drain_lem,
}

-- The same window and deferred messages, and the same tallies.
abbrev pub Rests : SessionState → SessionState → Type 0
Rests s s' =
    (s'.in_inflight ≡ s.in_inflight)
    × (s'.qos2_pending ≡ s.qos2_pending)
    × ((j : ℕ)
        → (deliveries j s'.trace ≤ deliveries j s.trace)
          × (releases j s'.trace ≡ releases j s.trace))

pub Rests-IsConsistent : (s s' : SessionState) → Rests s s' → IsConsistent s → IsConsistent s'
Rests-IsConsistent s s' (w, p, _) v = record {
  window = rw w v.window;
  deferred = rw (w, p) v.deferred;
  held = rw (w, p) v.held;
  bounded = rw p v.bounded;
}

-- A call that leaves the window and the deferred messages as they were, and delivers nothing of
-- QoS 2, keeps the invariant and the tallies, however it ends.
pub Rests-Handles :
    (s s' : SessionState) (r : Result Reason (Unit {0}))
    → Rests s s'
    → IsConsistent s
    → Handles s (r, s')
Rests-Handles s s' (ok u) t v =
    (Rests-IsConsistent s s' t v, λ j i. let (d, e) = t.2 j in rw t.0 (ground arith))
Rests-Handles s s' (err e) t v = (tt, λ j i. let (d, e) = t.2 j in ground arith)

Tallied-both :
    (j : ℕ) (s : SessionState) (r : Result Reason (Unit {0})) → IsTallied j s → Tallied j (r, s)
Tallied-both j s (ok u) t = t
Tallied-both j s (err e) t = IsTallied-IsOnce j s t

if-Handles :
    (b : Bool) (x y : Result Reason (Unit {0}) × SessionState) (s : SessionState)
    → (b ≡ true → Handles s x)
    → (b ≡ false → Handles s y)
    → Handles s (if b then x else y)
if-Handles true x y s f g = f refl
if-Handles false x y s f g = g refl

-- Nothing is deferred while there is room.
Acked-IsConsistent :
    (pid : ℕ) (s s' : SessionState) (r : Result Reason (Unit {0}))
    → IsConsistent s
    → Inflight.is_full s.in_inflight ≡ false
    → s'.qos2_pending ≡ s.qos2_pending
    → IfOk r (Admits pid s.in_inflight s'.in_inflight)
    → IfOk r (IsConsistent s')
Acked-IsConsistent pid s s' (err e) v room q a = tt
Acked-IsConsistent pid s s' (ok u) v room q a =
    let n : s'.qos2_pending ≡ [] = elim v.held [ inl n ↦ q ∙ n | inr full ↦ cc ] in
    record { window = a.0; deferred = rw n tt; held = inl n; bounded = rw n (omega arith) }

module _ (env : Env) where
  pub process_release-Handles :
      (pid : ℕ) (s : SessionState) → IsConsistent s → Handles s (process_release env pid s)
  unfolding process_release send remove_inflight deliveries releases
  process_release-Handles pid s v =
      let x = send env (publish_complete pid) (remove_inflight pid s) in
      after-Handles x (λ s'. drain env s'.qos2_pending s') s
        (λ j t.
          Tallied-both j x.1 x.0
            (ground (arith, contains-remove pid j s.in_inflight, ==_iff j pid)))
        (λ o.
          drain_lem env s.qos2_pending x.1 (remove-IsValid pid s.in_inflight v.window)
            (AreDeferred-remove pid s.in_inflight s.qos2_pending v.deferred) v.bounded)

  send-Handles :
      (pid : ℕ) (res : PublishResult) (s : SessionState)
      → IsConsistent s
      → Handles s (send env (publish_received pid res) s)
  unfolding send deliveries releases
  send-Handles pid res s v =
      let x = send env (publish_received pid res) s in
      Rests-Handles s x.1 x.0 (refl, refl, λ j. (omega arith, refl)) v

  deferred-Handles :
      (pid : ℕ) (p : Publish) (s : SessionState)
      → Carries pid p
      → IsConsistent s
      → is_pending pid s.qos2_pending ≡ false
      → Inflight.contains pid s.in_inflight ≡ false
      → Inflight.is_full s.in_inflight ≡ true
      → leb session_qos2_pending_cap (length s.qos2_pending) ≡ false
      → Handles s (ok tt, record s { qos2_pending = s.qos2_pending ++ ((pid, p) ∷ []) })
  deferred-Handles pid p s c v n f full l = (
    record {
      window = v.window;
      deferred = AreDeferred-append pid p s.in_inflight s.qos2_pending c f n v.deferred;
      held = inr full;
      bounded = let e = length-append s.qos2_pending ((pid, p) ∷ []) in ground arith;
    },
    λ j t. t,
  )

  acked-Handles :
      (pid : ℕ) (p : Publish) (s : SessionState)
      → Carries pid p
      → IsConsistent s
      → Inflight.contains pid s.in_inflight ≡ false
      → Inflight.is_full s.in_inflight ≡ false
      → Handles s (ack_qos2_inbound env pid p s)
  acked-Handles pid p s c v f room =
      let (q, a, t) = ack_qos2_inbound_lem env pid p s c (v.window, room, f) in
      (Acked-IsConsistent pid s _ _ v room q a, t)

  pub process_exactly_once-Handles :
      (pid : ℕ) (p : Publish) (s : SessionState)
      → Carries pid p
      → IsConsistent s
      → Handles s (process_exactly_once env pid p s)
  unfolding process_exactly_once
  process_exactly_once-Handles pid p s c v =
      if-Handles _ _ _ s (λ n. (v, λ j t. t))
        (λ n.
          if-Handles _ _ _ s (λ f. send-Handles pid publish_success s v)
            (λ f.
              if-Handles _ _ _ s
                (λ full.
                  if-Handles _ _ _ s
                    (λ l. Rests-Handles s _ (ok tt) (refl, refl, λ j. (omega arith, refl)) v)
                    (λ l. deferred-Handles pid p s c v n f full l))
                (λ room. acked-Handles pid p s c v f room)))
