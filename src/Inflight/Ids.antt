-- ===== src/Inflight/Ids.antt =====
-- The packet identifiers that `next_id` of oximqtt/src/inflight.rs gives out.
use oximqtt.Base.{
  ℕ, zero, suc, ◌+◌, ◌-◌, ◌%◌, ◌≤◌, ◌<◌, ◌≡◌, refl, Bool, true, false, some, ok, arith, ◌==◌, ◌⊎◌,
  ◌||◌, Bool-cases, inl, inr, ap, sym, ◌∙◌, le_or_lt,
}
use oximqtt.Inflight.{next_id_loop, next_id, get_timeout, front_timeout, timeout}

loop-fresh :
    (used : ℕ → Bool) (n next i : ℕ)
    → next < 65_536
    → (next_id_loop used n next).0 ≡ ok i
    → (used i ≡ false) × (0 < i) × (i < 65_536)
unfolding next_id_loop
loop-fresh used zero next i h e = ground arith
loop-fresh used (suc n) next i h e = ground (arith, loop-fresh used n ((next + 1) % 65_536) i)

loop-below : (used : ℕ → Bool) (n next : ℕ) → next < 65_536 → (next_id_loop used n next).1 < 65_536
unfolding next_id_loop
loop-below used zero next h = h
loop-below used (suc n) next h = ground (arith, loop-below used n ((next + 1) % 65_536))

-- The counter stays within 16 bits.
pub next_id-below : (used : ℕ → Bool) (next : ℕ) → next < 65_536 → (next_id used next).1 < 65_536
unfolding next_id
next_id-below used next h = loop-below used 65_535 next h

loop-finds :
    (used : ℕ → Bool) (n next j : ℕ)
    → j < n
    → next < 65_536
    → 0 < (next + j) % 65_536
    → used ((next + j) % 65_536) ≡ false
    → (i : ℕ) × ((next_id_loop used n next).0 ≡ ok i)
unfolding next_id_loop
loop-finds used zero next j h k p e = absurd (omega arith)
loop-finds used (suc n) next zero h k p e =
    let e' : (next + 0) % 65_536 ≡ next = omega arith in
    let f : used next ≡ false = sym (ap used e') ∙ e in (next, ground arith)
loop-finds used (suc n) next (suc j) h k p e =
    let e' : ((next + 1) % 65_536 + j) % 65_536 ≡ (next + suc j) % 65_536 = omega arith in
    let (i, q) =
      loop-finds used n ((next + 1) % 65_536) j (omega arith) (omega arith) (omega arith)
        (ap used e' ∙ e) in
    elim (Bool-cases ((next == 0) || used next)) [
      | inl b ↦ (i, ground arith)
      | inr b ↦ (next, ground arith)
    ]

-- An identifier that `next_id` gives is not 0 and not in use.
pub next_id-fresh :
    (used : ℕ → Bool) (next i : ℕ)
    → next < 65_536
    → (next_id used next).0 ≡ ok i
    → (used i ≡ false) × (0 < i) × (i < 65_536)
unfolding next_id
next_id-fresh used next i h e = loop-fresh used 65_535 next i h e

-- If one of the 65535 identifiers from the counter on, round past 65535, is not 0 and not in use,
-- `next_id` gives an identifier that is not in use, not 0 and at most 65535.
pub next_id-finds :
    (used : ℕ → Bool) (next j : ℕ)
    → next < 65_536
    → j < 65_535
    → 0 < (next + j) % 65_536
    → used ((next + j) % 65_536) ≡ false
    → (i : ℕ) × ((next_id used next).0 ≡ ok i) × (used i ≡ false) × (0 < i) × (i < 65_536)
unfolding next_id
next_id-finds used next j h k p e =
    let (i, g) = loop-finds used 65_535 next j k h p e in
    let (a, b, c) = loop-fresh used 65_535 next i h g in (i, g, a, b, c)

-- For an interval that is not 0 and a front message, `get_timeout` waits at least a millisecond: one,
-- if the message has timed out, which it has exactly if the interval has passed, and otherwise the
-- time that is left of the interval.
pub get_timeout-front :
    (now update_time interval : ℕ)
    → update_time ≤ now
    → 0 < interval
    → (t : ℕ) × (get_timeout now interval (some update_time) ≡ some t)
      × (((front_timeout now interval (some update_time) ≡ true)
            × (update_time + interval ≤ now)
            × (t ≡ 1))
          ⊎ ((front_timeout now interval (some update_time) ≡ false)
              × (now < update_time + interval)
              × (now + t ≡ update_time + interval)))
unfolding get_timeout front_timeout timeout
get_timeout-front now u n h p = elim (le_or_lt n (now - u)) [
  | inl l ↦ (1, ground arith, inl (ground arith, omega arith, refl))
  | inr l ↦ (n - (now - u), ground arith, inr (ground arith, omega arith, omega arith))
]
