-- ===== src/Session/Outbound/Runs.antt =====
-- Runs of what oximqtt/src/session.rs delivers: the outbound window after them.
use oximqtt.Base.{
  ℕ, zero, suc, ◌≡◌, refl, true, Option, none, some, List, [], ◌∷◌, ==_iff, arith, Bool-cases,
  Option-cases, Result-cases, inl, inr, subst, sym,
}
use oximqtt.Codec.Qos.{QoS, at_most_once, at_least_once, exactly_once}
use oximqtt.Inflight.Ids.{next_id-below}
use oximqtt.Session.{Publish, unwrap_or}
use oximqtt.Session.Outbound.{
  Effect, sent, expired, timed_out, forwarded, unfinished, requeued, rereleased, released, Env,
  State, Event, deliver_packet, publish_ack, publish_received, publish_complete, deliver_timeout,
  rerelease, moment_status, held, needs_id, number, send_message, deliver, process_ack,
  process_received, reforward, reforward_loop, send_rerelease, process, run, as_dup, log,
}
use oximqtt.Session.Outbound.Window
use oximqtt.Session.Outbound.Window.{
  OutInflightMessage, DequeMap, OutInflight, MomentStatus, un_ack, un_received, un_complete,
  push_back, remove, update_status, pop_front, pop_front_timeout, front_timeout, is_some, next_id,
  has_credit,
}
use oximqtt.Session.Outbound.Tracked.{
  says, is_waiting, IsTracked, said_nothing, update_status-IsTracked, push_back-IsTracked,
  remove-some, remove-none, pop_front_timeout-cases, push_back-none,
}

module _ (env : Env) {Q : Type 0} (d : DequeMap Q) where
  abbrev pub IsGood : State Q → Type 0
  IsGood s = IsTracked d s.out_inflight s.trace

  new-IsGood :
      (size retry expiry : ℕ)
      → IsGood (record { out_inflight = Window.new d size retry expiry; trace = [] })
  unfolding is_waiting
  new-IsGood size retry expiry = record {
    holds = λ k. rw (d.get-empty k) refl;
    keyed = λ k m e. let a = d.get-empty k in ground arith;
    counted = let a = d.len-empty in omega arith;
    wraps = omega arith;
  }

  number-IsGood : (p : Publish) (s : State Q) → IsGood s → IsGood (number env d p s).1
  unfolding number next_id
  number-IsGood p s h = elim (Bool-cases (needs_id p)) [
    | inl b ↦
        rw (number, b)
          (record {
            holds = h.holds;
            keyed = h.keyed;
            counted = h.counted;
            wraps =
                next_id-below (λ k. is_some (d.get k s.out_inflight.queues)) s.out_inflight.next
                  h.wraps;
          })
    | inr b ↦ rw (number, b) h
  ]

  held-IsGood :
      (now : ℕ) (q : Publish) (s : State Q)
      → IsGood s
      → IsTracked d (held env d now q (moment_status q.inner.qos) s.out_inflight) (sent q ∷ s.trace)
  held-IsGood now q s h = go q.inner.qos refl q.inner.packet_id refl
    where
      message : MomentStatus → OutInflightMessage
      message t = record { publish = q; status = t; update_time = now }

      pushed :
          (t : MomentStatus) (o : Option ℕ)
          → q.inner.packet_id ≡ o
          → moment_status q.inner.qos ≡ some t
          → IsTracked d (push_back d (message t) s.out_inflight).1 (sent q ∷ s.trace)
      pushed t none i m =
          subst (λ (x : Option ℕ × OutInflight Q). IsTracked d x.1 (sent q ∷ s.trace))
            (sym (push_back-none d (message t) s.out_inflight i))
            (said_nothing d s.out_inflight (sent q) s.trace (λ j. rw (m, i) refl) h)
      pushed t (some k) i m =
          push_back-IsTracked d s.out_inflight s.trace h k (message t) (sent q) i
            (λ j. rw (m, i) (ground (arith, ==_iff k j)))

      at_qos :
          {t : QoS}
          → q.inner.qos ≡ t
          → IsTracked d (held env d now q (moment_status t) s.out_inflight) (sent q ∷ s.trace)
          → IsTracked d
              (held env d now q (moment_status q.inner.qos) s.out_inflight)
              (sent q ∷ s.trace)
      at_qos e g =
          subst
            (λ t.
              IsTracked d (held env d now q (moment_status t) s.out_inflight) (sent q ∷ s.trace))
            (sym e) g

      go :
          (t : QoS)
          → q.inner.qos ≡ t
          → (o : Option ℕ) → q.inner.packet_id ≡ o
          → IsTracked d
              (held env d now q (moment_status q.inner.qos) s.out_inflight)
              (sent q ∷ s.trace)
      go at_most_once e o i =
          at_qos e (said_nothing d s.out_inflight (sent q) s.trace (λ j. rw e refl) h)
      go at_least_once e o i = at_qos e (pushed un_ack o i (rw e refl))
      go exactly_once e o i = at_qos e (pushed un_received o i (rw e refl))

  send_message-IsGood :
      (now : ℕ) (p : Publish) (s : State Q) → IsGood s → IsGood (send_message env d now p s).1
  unfolding send_message
  send_message-IsGood now p s h =
      let q = unwrap_or (env.message_delivered s.trace p) p in
      elim (Result-cases (env.publish s.trace q)) [
        | inl (u, e) ↦ rw (send_message, e) (held-IsGood now q s h)
        | inr (x, e) ↦ rw (send_message, e) h
      ]

  deliver-IsGood :
      (now : ℕ) (p : Publish) (s : State Q) → IsGood s → IsGood (deliver env d now p s).1
  unfolding deliver
  deliver-IsGood now p s h = elim (Bool-cases (env.is_expiry s.trace p)) [
    | inl b ↦ rw (deliver, b) (said_nothing d s.out_inflight (expired p) s.trace (λ j. refl) h)
    | inr b ↦
        let g = number-IsGood p s h in
        elim (Result-cases (number env d p s).0) [
          | inl (q, e) ↦ rw (deliver, b, e) (send_message-IsGood now q (number env d p s).1 g)
          | inr (x, e) ↦ rw (deliver, b, e) g
        ]
  ]

  process_ack-IsGood : (k : ℕ) (s : State Q) → IsGood s → IsGood (process_ack env d k s).1
  unfolding process_ack
  process_ack-IsGood k s h = elim (Option-cases (d.get k s.out_inflight.queues)) [
    | inl n ↦ let (e, g) = remove-none d s.out_inflight s.trace h k n in rw (process_ack, e) g
    | inr (m, n) ↦
        let (e, g) = remove-some d s.out_inflight s.trace h k m n in rw (process_ack, e) g
  ]

  process_received-IsGood :
      (now k : ℕ) (s : State Q) → IsGood s → IsGood (process_received env d now k s).1
  unfolding process_received
  process_received-IsGood now k s h =
      said_nothing d _ (released k true) s.trace (λ j. refl)
        (update_status-IsTracked d now k un_complete s.out_inflight s.trace h)

  reforward-IsGood :
      (m : OutInflightMessage) (s : State Q) → IsGood s → IsGood (reforward env d m s).1
  unfolding reforward
  reforward-IsGood m s h = go m.status refl
    where
      quiet : (e : Effect) → ((j : ℕ) → says j e ≡ none) → IsTracked d s.out_inflight (e ∷ s.trace)
      quiet e t = said_nothing d s.out_inflight e s.trace t h

      go : (t : MomentStatus) → m.status ≡ t → IsGood (reforward env d m s).1
      go un_ack i = rw (reforward, i) (quiet (forwarded (as_dup m.publish)) (λ j. refl))
      go un_received i = rw (reforward, i) (quiet (forwarded (as_dup m.publish)) (λ j. refl))
      go un_complete i = elim (Bool-cases (env.is_expiry s.trace m.publish)) [
        | inl b ↦ rw (reforward, i, b) (quiet (unfinished m) (λ j. refl))
        | inr b ↦ rw (reforward, i, b) (quiet (requeued m) (λ j. refl))
      ]

  reforward_loop-IsGood :
      (n now : ℕ) (s : State Q) → IsGood s → IsGood (reforward_loop env d n now s).1
  unfolding reforward_loop
  reforward_loop-IsGood zero now s h = h
  reforward_loop-IsGood (suc n) now s h =
      elim (pop_front_timeout-cases d s.out_inflight s.trace h now) [
        | inl (e, g) ↦ rw (reforward_loop, e) g
        | inr (m, e, g) ↦
            let s' : State Q = log (timed_out m) (record {
              out_inflight = (pop_front_timeout d now s.out_inflight).1;
              trace = s.trace;
            }) in
            let g' = reforward-IsGood m s' g in
            elim (Result-cases (reforward env d m s').0) [
              | inl (u, r) ↦
                  rw (reforward_loop, e, r)
                    (reforward_loop-IsGood n now (reforward env d m s').1 g')
              | inr (x, r) ↦ rw (reforward_loop, e, r) g'
            ]
      ]

  send_rerelease-IsGood :
      (now : ℕ) (m : OutInflightMessage) (s : State Q)
      → IsGood s
      → IsGood (send_rerelease env d now m s).1
  unfolding send_rerelease
  send_rerelease-IsGood now m s h = elim (Option-cases m.publish.inner.packet_id) [
    | inl i ↦ rw (send_rerelease, i) h
    | inr (k, i) ↦
        let m' : OutInflightMessage = record {
          publish = m.publish;
          status = un_complete;
          update_time = now;
        } in
        rw (send_rerelease, i)
          (said_nothing d _ (released k _) _ (λ j. refl)
            (push_back-IsTracked d s.out_inflight s.trace h k m' (rereleased m') i
              (λ j. rw i (ground (arith, ==_iff k j)))))
  ]

  process-IsGood : (x : Event) (s : State Q) → IsGood s → IsGood (process env d x s).1
  unfolding process
  process-IsGood (deliver_packet now p) s h = elim (Bool-cases (has_credit d s.out_inflight)) [
    | inl b ↦ rw (process, b) (deliver-IsGood now p s h)
    | inr b ↦ rw (process, b) h
  ]
  process-IsGood (publish_ack k) s h = process_ack-IsGood k s h
  process-IsGood (publish_received now k) s h = process_received-IsGood now k s h
  process-IsGood (publish_complete k) s h = process_ack-IsGood k s h
  process-IsGood (deliver_timeout now) s h =
      reforward_loop-IsGood (suc (d.len s.out_inflight.queues)) now s h
  process-IsGood (rerelease now m) s h = send_rerelease-IsGood now m s h

  run-IsGood : (xs : List Event) (s : State Q) → IsGood s → IsGood (run env d xs s).1
  unfolding run
  run-IsGood [] s h = h
  run-IsGood (x ∷ xs) s h =
      let g = process-IsGood x s h in
      elim (Result-cases (process env d x s).0) [
        | inl (u, e) ↦ rw (run, e) (run-IsGood xs (process env d x s).1 g)
        | inr (r, e) ↦ rw (run, e) g
      ]

  -- Whatever comes to a session, and however it ends, its outbound window holds a message at exactly
  -- the identifiers for which the last thing the session did was to send a message or to take it back
  -- for a release, and not that its client acknowledged it or it timed out; each message stands at
  -- its own identifier, and the counter shows how many there are.
  pub run-IsTracked :
      (xs : List Event) (size retry_interval expiry_interval : ℕ)
      → let s = run env d xs (record {
        out_inflight = Window.new d size retry_interval expiry_interval;
        trace = [];
      }) in
        IsTracked d s.1.out_inflight s.1.trace
  run-IsTracked xs size retry expiry = run-IsGood xs _ (new-IsGood size retry expiry)
