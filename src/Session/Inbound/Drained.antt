-- ===== src/Session/Inbound/Drained.antt =====
-- `drain_qos2_pending` of oximqtt/src/session.rs, and the invariant of the messages it defers.
use oximqtt.Base.{
  ℕ, ◌≤◌, ◌≡◌, refl, true, false, ◌⊎◌, inl, inr, List, [], ◌∷◌, ◌++◌, length, ◌==◌, ==_iff, Result,
  ok, err, arith, Bool-cases, sym, subst,
}
use oximqtt.Inflight
use oximqtt.Inflight.{InInflight}
use oximqtt.Inflight.Window
use oximqtt.Inflight.Removed.{contains-remove}
use oximqtt.Session.{Publish, Reason, Env, SessionState}
use oximqtt.Session.Inbound.{is_pending, session_qos2_pending_cap, ack_qos2_inbound, drain}
use oximqtt.Session.Inbound.Acked.{Carries, Admits, IfOk, IsTallied, Tallied, ack_qos2_inbound_lem}

-- The deferred messages are of QoS 2, their identifiers are distinct, and none is in the window.
abbrev pub AreDeferred : InInflight → List (ℕ × Publish) → Type 0
AreDeferred w [] = Unit
AreDeferred w ((pid, p) ∷ rest) =
    Carries pid p
    × (Inflight.contains pid w ≡ false)
    × (is_pending pid rest ≡ false)
    × AreDeferred w rest

-- The window is valid; messages are deferred only while it is full, and no more than the bound.
pub record IsConsistent (s : SessionState) : Type 0 where
  pub window : Window.IsValid s.in_inflight
  pub deferred : AreDeferred s.in_inflight s.qos2_pending
  pub held : (s.qos2_pending ≡ []) ⊎ (Inflight.is_full s.in_inflight ≡ true)
  pub bounded : length s.qos2_pending ≤ session_qos2_pending_cap

-- What a handler of the session keeps: the invariant, unless the session ends, and the tally of
-- every identifier.
abbrev pub Handles : SessionState → Result Reason (Unit {0}) × SessionState → Type 0
Handles s (r, s') = IfOk r (IsConsistent s') × ((j : ℕ) → IsTallied j s → Tallied j (r, s'))

AreDeferred-Admits :
    (pid : ℕ) (w w' : InInflight) (xs : List (ℕ × Publish))
    → Admits pid w w'
    → is_pending pid xs ≡ false
    → AreDeferred w xs
    → AreDeferred w' xs
AreDeferred-Admits pid w w' [] a n d = tt
AreDeferred-Admits pid w w' ((j, p) ∷ xs) a n (c, f, u, d) =
    let ne : (j == pid) ≡ false = ground arith in
    let n' : is_pending pid xs ≡ false = ground arith in
    (c, a.1 j ne f, u, AreDeferred-Admits pid w w' xs a n' d)

pub AreDeferred-remove :
    (pid : ℕ) (w : InInflight) (xs : List (ℕ × Publish))
    → AreDeferred w xs
    → AreDeferred (Inflight.remove pid w).1 xs
AreDeferred-remove pid w [] d = tt
AreDeferred-remove pid w ((j, p) ∷ xs) (c, f, u, d) =
    (c, ground (arith, contains-remove pid j w), u, AreDeferred-remove pid w xs d)

is_pending-append :
    (j : ℕ) (x : ℕ × Publish) (xs : List (ℕ × Publish))
    → is_pending j xs ≡ false
    → (x.0 == j) ≡ false
    → is_pending j (xs ++ (x ∷ [])) ≡ false
is_pending-append j x [] n m = ground arith
is_pending-append j x (y ∷ xs) n m = ground (arith, is_pending-append j x xs)

-- A message at the end of the queue.
pub AreDeferred-append :
    (pid : ℕ) (p : Publish) (w : InInflight) (xs : List (ℕ × Publish))
    → Carries pid p
    → Inflight.contains pid w ≡ false
    → is_pending pid xs ≡ false
    → AreDeferred w xs
    → AreDeferred w (xs ++ ((pid, p) ∷ []))
AreDeferred-append pid p w [] c f n d = (c, f, refl, tt)
AreDeferred-append pid p w ((j, q) ∷ xs) c f n (cj, fj, u, d) =
    let m : (pid == j) ≡ false = ground (arith, ==_iff pid j) in
    let n' : is_pending pid xs ≡ false = ground arith in
    (cj, fj, is_pending-append j (pid, p) xs u m, AreDeferred-append pid p w xs c f n' d)

pub by_ok : {P : Type 0} (r : Result Reason (Unit {0})) → r ≡ ok tt → IfOk r P → P
by_ok (ok u) o p = p
by_ok (err e) o p = cc

-- One call after the other.
abbrev pub after :
    Result Reason (Unit {0}) × SessionState
    → (SessionState → Result Reason (Unit {0}) × SessionState)
    → Result Reason (Unit {0}) × SessionState
after (r, s) k = elim r [ ok _ ↦ k s | err e ↦ (err e, s) ]

pub after-Handles :
    (x : Result Reason (Unit {0}) × SessionState)
    (k : SessionState → Result Reason (Unit {0}) × SessionState) (s : SessionState)
    → ((j : ℕ) → IsTallied j s → Tallied j x)
    → (x.0 ≡ ok tt → Handles x.1 (k x.1))
    → Handles s (after x k)
after-Handles (ok u, s') k s t h = let (v, f) = h refl in (v, λ j i. f j (t j i))
after-Handles (err e, s') k s t h = (tt, t)

module _ (env : Env) where
  -- From a valid window with the messages deferred, `drain` ends with the window full or no message
  -- deferred, or with the session.
  pub drain_lem :
      (xs : List (ℕ × Publish)) (s : SessionState)
      → Window.IsValid s.in_inflight
      → AreDeferred s.in_inflight xs
      → length xs ≤ session_qos2_pending_cap
      → Handles s (drain env xs s)
  unfolding drain
  drain_lem [] s v d b =
      (record { window = v; deferred = tt; held = inl refl; bounded = omega arith }, λ j t. t)
  drain_lem ((pid, p) ∷ rest) s v (c, f, u, d) b =
      elim (Bool-cases (Inflight.is_full s.in_inflight)) [
        | inl full ↦
            let s' = record s { qos2_pending = (pid, p) ∷ rest } in
            let q : drain env ((pid, p) ∷ rest) s ≡ (ok tt, s') = rw (drain, full) refl in
            subst (Handles s) (sym q) (
              record { window = v; deferred = (c, f, u, d); held = inr full; bounded = b },
              λ j t. t,
            )
        | inr room ↦
            let s0 = record s { qos2_pending = rest } in
            let x = ack_qos2_inbound env pid p s0 in
            let (_, a, t) = ack_qos2_inbound_lem env pid p s0 c (v, room, f) in
            let q : drain env ((pid, p) ∷ rest) s ≡ after x (drain env rest) =
              rw (drain, room) refl in
            subst (Handles s) (sym q) (
              after-Handles x (drain env rest) s t (λ o.
                let (v', k) = by_ok x.0 o a in
                drain_lem rest x.1 v' (AreDeferred-Admits pid _ _ rest (v', k) u d) (omega arith)))
      ]
