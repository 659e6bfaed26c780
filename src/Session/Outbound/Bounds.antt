-- ===== src/Session/Outbound/Bounds.antt =====
-- How many messages the outbound window of oximqtt/src/session.rs holds.
use oximqtt.Base.{
  ℕ, suc, ◌≤◌, ◌<◌, ◌≡◌, refl, Bool, true, false, List, [], ◌∷◌, arith, Bool-cases, Result-cases,
  inl, inr,
}
use oximqtt.Session.Outbound.{
  Env, State, Event, deliver_packet, publish_ack, publish_received, publish_complete,
  deliver_timeout, rerelease, process, run,
}
use oximqtt.Session.Outbound.Window
use oximqtt.Session.Outbound.Window.{
  OutInflightMessage, DequeMap, OutInflight, MomentStatus, un_ack, un_received, un_complete,
  push_back, remove, update_status, pop_front, pop_front_timeout, front_timeout, has_credit,
  next_id, with_status,
}
use oximqtt.Session.Outbound.Sizes.{
  deliver-IsWithin, process_ack-IsWithin, process_received-IsWithin, reforward_loop-IsWithin,
}

-- Whether a session is asked for a release again.
abbrev pub has_rerelease : List Event → Bool
has_rerelease [] = false
has_rerelease (rerelease now m ∷ xs) = true
has_rerelease (_ ∷ xs) = has_rerelease xs

module _ {Q : Type 0} (d : DequeMap Q) where
  -- A window with credit that is within its size has room.
  credit-room :
      (w : OutInflight Q)
      → w.cap < 18_446_744_073_709_551_616
      → d.len w.queues ≤ w.cap
      → has_credit d w ≡ true
      → d.len w.queues < w.cap
  unfolding has_credit
  credit-room w s l c = ground arith

module _ (env : Env) {Q : Type 0} (d : DequeMap Q) where
  -- The window is within its size, which is a `usize`.
  abbrev HasRoom : ℕ → State Q → Type 0
  HasRoom size s = (s.out_inflight.cap ≡ size) × (d.len s.out_inflight.queues ≤ size)

  process-HasRoom :
      (size : ℕ) (x : Event) (s : State Q)
      → size < 18_446_744_073_709_551_616
      → has_rerelease (x ∷ []) ≡ false
      → HasRoom size s
      → HasRoom size (process env d x s).1
  unfolding process
  process-HasRoom size (deliver_packet now p) s b r h =
      elim (Bool-cases (has_credit d s.out_inflight)) [
        | inl c ↦
            let room = credit-room d s.out_inflight (omega (arith, b, h)) (omega (arith, h)) c in
            let (g, l) = deliver-IsWithin env d now p s in
            rw (process, c) (omega (arith, g, h), omega (arith, g, l, h, room))
        | inr c ↦ rw (process, c) h
      ]
  process-HasRoom size (publish_ack k) s b r h =
      let (g, l) = process_ack-IsWithin env d k s in (omega (arith, g, h), omega (arith, g, l, h))
  process-HasRoom size (publish_received now k) s b r h =
      let (g, l) = process_received-IsWithin env d now k s in
      (omega (arith, g, h), omega (arith, g, l, h))
  process-HasRoom size (publish_complete k) s b r h =
      let (g, l) = process_ack-IsWithin env d k s in (omega (arith, g, h), omega (arith, g, l, h))
  process-HasRoom size (deliver_timeout now) s b r h =
      let (g, l) = reforward_loop-IsWithin env d (suc (d.len s.out_inflight.queues)) now s in
      (omega (arith, g, h), omega (arith, g, l, h))
  process-HasRoom size (rerelease now m) s b r h = absurd (ground arith)

  run-HasRoom :
      (size : ℕ) (xs : List Event) (s : State Q)
      → size < 18_446_744_073_709_551_616
      → has_rerelease xs ≡ false
      → HasRoom size s
      → HasRoom size (run env d xs s).1
  unfolding run
  run-HasRoom size [] s b r h = h
  run-HasRoom size (x ∷ xs) s b r h =
      let g = process-HasRoom size x s b (first x xs r) h in
      elim (Result-cases (process env d x s).0) [
        | inl (u, e) ↦ rw (run, e) (run-HasRoom size xs (process env d x s).1 b (rest x xs r) g)
        | inr (i, e) ↦ rw (run, e) g
      ]
    where
      first :
          (x : Event) (xs : List Event)
          → has_rerelease (x ∷ xs) ≡ false
          → has_rerelease (x ∷ []) ≡ false
      first (rerelease now m) xs r = r
      first (deliver_packet now p) xs r = refl
      first (publish_ack k) xs r = refl
      first (publish_received now k) xs r = refl
      first (publish_complete k) xs r = refl
      first (deliver_timeout now) xs r = refl

      rest :
          (x : Event) (xs : List Event) → has_rerelease (x ∷ xs) ≡ false → has_rerelease xs ≡ false
      rest (rerelease now m) xs r = absurd (ground arith)
      rest (deliver_packet now p) xs r = r
      rest (publish_ack k) xs r = r
      rest (publish_received now k) xs r = r
      rest (publish_complete k) xs r = r
      rest (deliver_timeout now) xs r = r

  -- As long as a session is not asked for a release again, and its window has fewer than 2 ^ 64
  -- places, the window holds at most as many messages as its size.
  pub run-within :
      (size retry_interval expiry_interval : ℕ) (xs : List Event)
      → size < 18_446_744_073_709_551_616
      → has_rerelease xs ≡ false
      → let s = run env d xs (record {
        out_inflight = Window.new d size retry_interval expiry_interval;
        trace = [];
      }) in
        d.len s.1.out_inflight.queues ≤ size
  run-within size retry expiry xs b r =
      (run-HasRoom size xs _ b r (refl, let e = d.len-empty in omega arith)).1
