-- ===== src/Session/Outbound/Sizes.antt =====
-- How much each operation of oximqtt/src/session.rs adds to the outbound window.
use oximqtt.Base.{
  ℕ, zero, suc, ◌+◌, ◌≤◌, ◌≡◌, refl, Option, none, some, arith, Bool-cases, Option-cases,
  Result-cases, inl, inr, ap,
}
use oximqtt.Session.{Publish, unwrap_or}
use oximqtt.Session.Outbound.{
  Env, State, moment_status, held, needs_id, number, send_message, deliver, process_ack,
  process_received, reforward, reforward_loop, log, timed_out,
}
use oximqtt.Session.Outbound.Window.{
  OutInflightMessage, DequeMap, OutInflight, MomentStatus, un_ack, un_received, un_complete,
  push_back, remove, update_status, pop_front, pop_front_timeout, front_timeout, next_id,
  with_status,
}

module _ {Q : Type 0} (d : DequeMap Q) where
  -- From one window to another at most `n` messages more, and the size is the same.
  abbrev pub IsWithin : ℕ → OutInflight Q → OutInflight Q → Type 0
  IsWithin n w w' = (w'.cap ≡ w.cap) × (d.len w'.queues ≤ n + d.len w.queues)

  push_back-IsWithin :
      (m : OutInflightMessage) (w : OutInflight Q) → IsWithin 1 w (push_back d m w).1
  unfolding push_back
  push_back-IsWithin m w = elim (Option-cases m.publish.inner.packet_id) [
    | inl i ↦ rw (push_back, i) (refl, omega arith)
    | inr (k, i) ↦ elim (Option-cases (d.get k w.queues)) [
      | inl n ↦
          let l = d.len-insert_new k m w.queues n in
          rw (push_back, i, d.insert-old k m w.queues, n) (refl, omega arith)
      | inr (o, n) ↦
          let l = d.len-insert_old k m o w.queues n in
          rw (push_back, i, d.insert-old k m w.queues, n) (refl, omega arith)
    ]
  ]

  remove-IsWithin : (k : ℕ) (w : OutInflight Q) → IsWithin 0 w (remove d k w).1
  unfolding remove
  remove-IsWithin k w = elim (Option-cases (d.get k w.queues)) [
    | inl n ↦
        let l = d.len-remove_new k w.queues n in
        rw (remove, d.remove-old k w.queues, n) (refl, omega arith)
    | inr (o, n) ↦
        let l = d.len-remove_old k o w.queues n in
        rw (remove, d.remove-old k w.queues, n) (refl, omega arith)
  ]

  pop_front_timeout-IsWithin :
      (now : ℕ) (w : OutInflight Q) → IsWithin 0 w (pop_front_timeout d now w).1
  unfolding pop_front_timeout pop_front
  pop_front_timeout-IsWithin now w = elim (Bool-cases (front_timeout d now w)) [
    | inr b ↦ rw (pop_front_timeout, b) (refl, omega arith)
    | inl b ↦ elim (Option-cases (d.front w.queues)) [
      | inl f ↦
          rw
            (
              pop_front_timeout,
              b,
              pop_front,
              d.pop_front-front w.queues,
              f,
              d.pop_front-none w.queues f,
            )
            (refl, omega arith)
      | inr ((k, m), f) ↦
          let l = d.len-pop_front k m w.queues f in
          rw (pop_front_timeout, b, pop_front, d.pop_front-front w.queues, f) (refl, omega arith)
    ]
  ]

module _ (env : Env) {Q : Type 0} (d : DequeMap Q) where
  send_message-IsWithin :
      (now : ℕ) (p : Publish) (s : State Q)
      → IsWithin d 1 s.out_inflight (send_message env d now p s).1.out_inflight
  unfolding send_message
  send_message-IsWithin now p s =
      let q = unwrap_or (env.message_delivered s.trace p) p in
      elim (Result-cases (env.publish s.trace q)) [
        | inl (u, e) ↦ rw (send_message, e) (held-IsWithin q (moment_status q.inner.qos))
        | inr (x, e) ↦ rw (send_message, e) (refl, omega arith)
      ]
    where
      held-IsWithin :
          (q : Publish) (t : Option MomentStatus)
          → IsWithin d 1 s.out_inflight (held env d now q t s.out_inflight)
      held-IsWithin q none = (refl, omega arith)
      held-IsWithin q (some t) = push_back-IsWithin d _ s.out_inflight

  number-IsWithin :
      (p : Publish) (s : State Q) → IsWithin d 0 s.out_inflight (number env d p s).1.out_inflight
  unfolding number next_id
  number-IsWithin p s = elim (Bool-cases (needs_id p)) [
    | inl b ↦ rw (number, b) (refl, omega arith)
    | inr b ↦ rw (number, b) (refl, omega arith)
  ]

  pub deliver-IsWithin :
      (now : ℕ) (p : Publish) (s : State Q)
      → IsWithin d 1 s.out_inflight (deliver env d now p s).1.out_inflight
  unfolding deliver
  deliver-IsWithin now p s = elim (Bool-cases (env.is_expiry s.trace p)) [
    | inl b ↦ rw (deliver, b) (refl, omega arith)
    | inr b ↦
        let (g, l) = number-IsWithin p s in
        elim (Result-cases (number env d p s).0) [
          | inl (q, e) ↦
              let (g', l') = send_message-IsWithin now q (number env d p s).1 in
              rw (deliver, b, e) (omega (arith, g, g'), omega (arith, l, l'))
          | inr (x, e) ↦ rw (deliver, b, e) (g, omega arith)
        ]
  ]

  pub process_ack-IsWithin :
      (k : ℕ) (s : State Q) → IsWithin d 0 s.out_inflight (process_ack env d k s).1.out_inflight
  unfolding process_ack
  process_ack-IsWithin k s = elim (Option-cases (remove d k s.out_inflight).0) [
    | inl n ↦ rw (process_ack, n) (remove-IsWithin d k s.out_inflight)
    | inr (m, n) ↦ rw (process_ack, n) (remove-IsWithin d k s.out_inflight)
  ]

  pub process_received-IsWithin :
      (now k : ℕ) (s : State Q)
      → IsWithin d 0 s.out_inflight (process_received env d now k s).1.out_inflight
  unfolding process_received update_status
  process_received-IsWithin now k s =
      let l = d.len-get_mut k (with_status d now un_complete) s.out_inflight.queues in
      (refl, omega arith)

  pub reforward-same :
      (m : OutInflightMessage) (s : State Q) → (reforward env d m s).1.out_inflight ≡ s.out_inflight
  unfolding reforward
  reforward-same m s = go m.status refl
    where
      go : (t : MomentStatus) → m.status ≡ t → (reforward env d m s).1.out_inflight ≡ s.out_inflight
      go un_ack i = rw (reforward, i) refl
      go un_received i = rw (reforward, i) refl
      go un_complete i = elim (Bool-cases (env.is_expiry s.trace m.publish)) [
        | inl b ↦ rw (reforward, i, b) refl
        | inr b ↦ rw (reforward, i, b) refl
      ]

  pub reforward_loop-IsWithin :
      (n now : ℕ) (s : State Q)
      → IsWithin d 0 s.out_inflight (reforward_loop env d n now s).1.out_inflight
  unfolding reforward_loop
  reforward_loop-IsWithin zero now s = (refl, omega arith)
  reforward_loop-IsWithin (suc n) now s =
      let (g, l) = pop_front_timeout-IsWithin d now s.out_inflight in
      elim (Option-cases (pop_front_timeout d now s.out_inflight).0) [
        | inl e ↦ rw (reforward_loop, e) (g, l)
        | inr (m, e) ↦
            let s' : State Q = log (timed_out m) (record {
              out_inflight = (pop_front_timeout d now s.out_inflight).1;
              trace = s.trace;
            }) in
            let i = reforward-same m s' in
            elim (Result-cases (reforward env d m s').0) [
              | inl (u, r) ↦
                  let (g', l') = reforward_loop-IsWithin n now (reforward env d m s').1 in
                  let gi = ap (λ (w : OutInflight Q). w.cap) i in
                  let li = ap (λ (w : OutInflight Q). d.len w.queues) i in
                  rw (reforward_loop, e, r) (omega (arith, g, g', gi), omega (arith, l, l', li))
              | inr (x, r) ↦ rw (reforward_loop, e, r, i) (g, l)
            ]
      ]
