-- ===== src/Session/Outbound/Fresh.antt =====
-- The packet identifiers that `deliver` of oximqtt/src/session.rs gives out.
use oximqtt.Base.{
  ℕ, ◌≡◌, refl, true, false, none, some, List, [], ◌∷◌, Result, ok, err, ◌<◌, arith, Result-cases,
  inl, inr, sym, ◌∙◌, ap,
}
use oximqtt.Inflight.Ids.{next_id-fresh}
use oximqtt.Session.{Publish, Reason}
use oximqtt.Session.Outbound.{
  Effect, sent, Env, State, Event, needs_id, number, send_message, deliver, run, with_id,
  no_packet_id,
}
use oximqtt.Session.Outbound.Window
use oximqtt.Session.Outbound.Window.{DequeMap, is_some, next_id}
use oximqtt.Session.Outbound.Tracked.{is_waiting}
use oximqtt.Session.Outbound.Runs.{IsGood, run-IsTracked}

module _ (env : Env) {Q : Type 0} (d : DequeMap Q) where
  abbrev IsNew : State Q → Publish → Publish → Type 0
  IsNew s p q =
      (k : ℕ) × (q ≡ with_id (some k) p) × (is_waiting k s.trace ≡ false) × (0 < k) × (k < 65_536)

  module _ (p : Publish) (s : State Q) (n : needs_id p ≡ true) where
    number-ok :
        (k : ℕ)
        → (next_id d s.out_inflight).0 ≡ ok k
        → (number env d p s).0 ≡ ok (with_id (some k) p)
    unfolding number
    number-ok k f = rw (number, n, f) refl

    number-err :
        {e : Unit {0}}
        → (next_id d s.out_inflight).0 ≡ err e
        → (r : Reason) × ((number env d p s).0 ≡ err r)
    unfolding number
    number-err f = (no_packet_id, rw (number, n, f) refl)

    number-trace : (number env d p s).1.trace ≡ s.trace
    unfolding number
    number-trace = rw (number, n) refl

    number-IsNew : (q : Publish) → IsGood env d s → (number env d p s).0 ≡ ok q → IsNew s p q
    unfolding next_id
    number-IsNew q h e = elim (Result-cases (next_id d s.out_inflight).0) [
      | inl (k, f) ↦
          let used = λ (j : ℕ). is_some (d.get j s.out_inflight.queues) in
          let (a, b, c) = next_id-fresh used s.out_inflight.next k h.wraps f in
          (
            k,
            ap (λ (r : Result Reason Publish). elim r [ ok x ↦ x | err _ ↦ p ])
                (sym e ∙ number-ok k f),
            sym (h.holds k) ∙ a,
            b,
            c,
          )
      | inr (x, f) ↦ let (r, g) = number-err f in absurd (ground arith)
    ]

  send_message-sent :
      (now : ℕ) (p : Publish) (s : State Q)
      → env.message_delivered s.trace p ≡ none
      → (send_message env d now p s).0 ≡ ok tt
      → (send_message env d now p s).1.trace ≡ sent p ∷ s.trace
  unfolding send_message
  send_message-sent now p s u e = elim (Result-cases (env.publish s.trace p)) [
    | inl (v, f) ↦ rw (send_message, u, f, u) refl
    | inr (r, f) ↦
        let g : (send_message env d now p s).0 ≡ err r = rw (send_message, u, f) refl in
        absurd (ground arith)
  ]

  deliver-IsNew :
      (now : ℕ) (p : Publish) (s : State Q)
      → IsGood env d s
      → ((es : List Effect) (q : Publish) → env.message_delivered es q ≡ none)
      → env.is_expiry s.trace p ≡ false
      → needs_id p ≡ true
      → (deliver env d now p s).0 ≡ ok tt
      → (k : ℕ) × ((deliver env d now p s).1.trace ≡ sent (with_id (some k) p) ∷ s.trace)
        × (is_waiting k s.trace ≡ false)
        × (0 < k)
        × (k < 65_536)
  unfolding deliver
  deliver-IsNew now p s h u x n e = elim (Result-cases (number env d p s).0) [
    | inl (q, f) ↦
        let s' = (number env d p s).1 in
        let g : deliver env d now p s ≡ send_message env d now q s' = rw (deliver, x, f) refl in
        let t = send_message-sent now q s' (u s'.trace q) (ap (λ y. y.0) (sym g) ∙ e) in
        let (k, i, free, positive, below) = number-IsNew p s n q h f in
        (
          k,
          ap (λ y. y.1.trace) g
              ∙ t
              ∙ ap (λ es. sent q ∷ es) (number-trace p s n)
              ∙ ap (λ y. sent y ∷ s.trace) i,
          free,
          positive,
          below,
        )
    | inr (r, f) ↦
        let g : (deliver env d now p s).0 ≡ err r = rw (deliver, x, f) refl in absurd (ground arith)
  ]

  -- After whatever came to a session, a message of QoS 1 or 2 that is no copy, or has no identifier,
  -- that has not expired and that the hooks leave alone is sent, where `deliver` returns no error,
  -- with an identifier from 1 to 65535 at which no message waits for an acknowledgement, and is
  -- otherwise what it was.
  pub deliver-fresh :
      (xs : List Event) (size retry_interval expiry_interval now : ℕ) (p : Publish)
      → let s =
          (run env d xs (record {
            out_inflight = Window.new d size retry_interval expiry_interval;
            trace = [];
          })).1 in
        ((es : List Effect) (q : Publish) → env.message_delivered es q ≡ none)
        → env.is_expiry s.trace p ≡ false
        → needs_id p ≡ true
        → (deliver env d now p s).0 ≡ ok tt
        → (k : ℕ) × ((deliver env d now p s).1.trace ≡ sent (with_id (some k) p) ∷ s.trace)
          × (is_waiting k s.trace ≡ false)
          × (0 < k)
          × (k < 65_536)
  deliver-fresh xs size retry expiry now p u x n e =
      deliver-IsNew now p _ (run-IsTracked env d xs size retry expiry) u x n e
