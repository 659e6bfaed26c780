-- ===== src/Session/Inbound/Runs.antt =====
-- Runs of the handlers of oximqtt/src/session.rs for PUBLISH and PUBREL.
use oximqtt.Base.{
  ℕ, ◌+◌, ◌≤◌, ◌≡◌, refl, false, Option, none, some, inl, inr, List, [], ◌∷◌, Result, ok, err,
  arith, Result-cases, sym, subst,
}
use oximqtt.Codec.Qos.{QoS, at_most_once, at_least_once, exactly_once}
use oximqtt.Inflight
use oximqtt.Inflight.{InInflight, is_exactly_once}
use oximqtt.Session.{
  Publish, Reason, protocol_error, Env, ClientTopicAliases, SessionState, M, ◌>>=◌, ◌>>◌, pure,
  publish, bind-ok, bind-err, by_result,
}
use oximqtt.Session.Inbound.{
  packet_id, process_at, process_publish, Packet, publish_packet, publish_release, process, run,
  process_exactly_once, process_at_least_once,
}
use oximqtt.Session.Inbound.Published.{deliveries, releases}
use oximqtt.Session.Inbound.Acked.{IsTallied, IsOnce, IsTallied-IsOnce, Tallied}
use oximqtt.Inflight.Window.{IsUnique}
use oximqtt.Session.Inbound.Drained.{IsConsistent, Handles, after-Handles, by_ok}
use oximqtt.Session.Inbound.Handled.{
  Rests-Handles, process_exactly_once-Handles, process_release-Handles,
}
use oximqtt.Session.Inbound.AtLeastOnce.{publish-Rests, process_at_least_once-Handles}

-- `SessionState::new`
abbrev pub new : Option ClientTopicAliases → ℕ → SessionState
new aliases max_inflight = record {
  client_topic_aliases = aliases;
  in_inflight = Inflight.new max_inflight;
  qos2_pending = [];
  publish_errors = 0;
  publish_auth_errors = 0;
  trace = [];
}

-- A session begins in the invariant.
pub new-IsConsistent : (aliases : Option ClientTopicAliases) (n : ℕ) → IsConsistent (new aliases n)
unfolding IsUnique
new-IsConsistent aliases n = record {
  window = record { within = omega arith; counted = refl; unique = tt };
  deferred = tt;
  held = inl refl;
  bounded = omega arith;
}

start : (aliases : Option ClientTopicAliases) (pid n : ℕ) → IsTallied pid (new aliases n)
unfolding deliveries
start aliases pid n = omega arith

IsOnce-Tallied :
    (pid : ℕ) (s : SessionState) (r : Result Reason (Unit {0})) → Tallied pid (r, s) → IsOnce pid s
IsOnce-Tallied pid s (ok u) t = IsTallied-IsOnce pid s t
IsOnce-Tallied pid s (err e) t = t

module _ (env : Env) where
  published :
      (p : Publish) (s : SessionState)
      → IsConsistent s
      → is_exactly_once p.inner.qos ≡ false
      → Handles s ((publish env p >> pure tt) s)
  published p s v q =
      let t = publish-Rests env p s q in
      let s' = (publish env p s).1 in
      elim (Result-cases (publish env p s).0) [
        | inl (res, h) ↦
            subst (Handles s)
              (sym (bind-ok (publish env p) (λ _. pure tt) (by_result (publish env p s) h)))
              (Rests-Handles s s' (ok tt) t v)
        | inr (e, h) ↦
            subst (Handles s)
              (sym (bind-err (publish env p) (λ _. pure tt) (by_result (publish env p s) h)))
              (Rests-Handles s s' (err e) t v)
      ]

  process_publish-Handles :
      (p : Publish) (s : SessionState) → IsConsistent s → Handles s (process_publish env p s)
  unfolding process_publish
  process_publish-Handles p s v = go p.inner.qos refl p.inner.packet_id refl
    where
      at_id :
          {o : Option ℕ}
          → p.inner.packet_id ≡ o
          → (f : ℕ → Publish → M (Unit {0})) → Handles s ((packet_id o >>= λ pid. f pid p) s)
          → Handles s ((packet_id p.inner.packet_id >>= λ pid. f pid p) s)
      at_id i f h = subst (λ o. Handles s ((packet_id o >>= λ pid. f pid p) s)) (sym i) h

      missing : (r : Reason) → Handles s (err r, s)
      missing r = (tt, λ j t. IsTallied-IsOnce j s t)

      go :
          (q : QoS)
          → p.inner.qos ≡ q
          → (o : Option ℕ) → p.inner.packet_id ≡ o
          → Handles s (process_at env q p s)
      go at_most_once e o i = published p s v (rw e refl)
      go at_least_once e none i = at_id i (process_at_least_once env) (missing protocol_error)
      go at_least_once e (some pid) i =
          at_id i (process_at_least_once env)
            (process_at_least_once-Handles env pid p s (rw e refl) v)
      go exactly_once e none i = at_id i (process_exactly_once env) (missing protocol_error)
      go exactly_once e (some pid) i =
          at_id i (process_exactly_once env) (process_exactly_once-Handles env pid p s (i, e) v)

  process-Handles : (x : Packet) (s : SessionState) → IsConsistent s → Handles s (process env x s)
  process-Handles (publish_packet p) s v = process_publish-Handles p s v
  process-Handles (publish_release pid) s v = process_release-Handles env pid s v

  run-Handles : (xs : List Packet) (s : SessionState) → IsConsistent s → Handles s (run env xs s)
  unfolding run
  run-Handles [] s v = (v, λ j t. t)
  run-Handles (x ∷ xs) s v =
      let h = process-Handles x s v in
      after-Handles (process env x s) (run env xs) s h.1 (λ o. run-Handles xs _ (by_ok _ o h.0))

  -- As long as a session reads on, whatever its client publishes and releases, its window stays
  -- within its size with distinct identifiers and its counter at their number; messages are deferred
  -- only while the window is full, at most 4096 of them, with distinct identifiers, none of them in
  -- the window.
  pub run-IsConsistent :
      (xs : List Packet) (s : SessionState)
      → IsConsistent s
      → (run env xs s).0 ≡ ok tt
      → IsConsistent (run env xs s).1
  run-IsConsistent xs s v o = by_ok _ o (run-Handles xs s v).0

  -- Whatever a client publishes and releases, and however the session ends, messages of QoS 2 with
  -- the same identifier are forwarded at most once more than the identifier was released.
  pub run-at_most_once :
      (xs : List Packet) (pid max_inflight : ℕ) (aliases : Option ClientTopicAliases)
      → let s = (run env xs (new aliases max_inflight)).1 in
        deliveries pid s.trace ≤ releases pid s.trace + 1
  run-at_most_once xs pid n a =
      let x = run env xs (new a n) in
      IsOnce-Tallied pid x.1 x.0
        ((run-Handles xs (new a n) (new-IsConsistent a n)).1 pid (start a pid n))
