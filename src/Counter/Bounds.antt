-- ===== src/Counter/Bounds.antt =====
-- What the counter of oximqtt/src/utils/counter.rs keeps while its count is within `isize`.
use oximqtt.Base.{
  ℕ, Bool, true, false, sym, ap, ◌∙◌, ◌+◌, ◌^◌, ◌≤◌, ◌<◌, ◌≡◌, arith, ltb, if◌then◌else◌,
}
use oximqtt.Counter.{Counter, incs, inc, decs, dec}

-- The count is not negative, and the maximum is one it has not passed.
abbrev pub IsHighWater : Counter → Type 0
IsHighWater k = (k.current ≤ k.maximum) × (k.maximum < 2 ^ 63)

-- Below the largest `isize`, `inc` counts one more and keeps the maximum the high-water mark: it
-- rises only if the count passes it.
pub inc-IsHighWater :
    (k : Counter)
    → IsHighWater k
    → k.current + 1 < 2 ^ 63
    → IsHighWater (inc k)
      × ((inc k).current ≡ k.current + 1)
      × ((inc k).maximum ≡ (if ltb k.maximum (k.current + 1) then k.current + 1 else k.maximum))
unfolding inc incs
inc-IsHighWater k h b = ground arith

-- Above 0, `dec` counts one less and leaves the maximum.
pub dec-IsHighWater :
    (k : Counter)
    → IsHighWater k
    → 0 < k.current
    → IsHighWater (dec k) × ((dec k).current + 1 ≡ k.current) × ((dec k).maximum ≡ k.maximum)
unfolding dec decs
dec-IsHighWater k h b = ground arith

-- A counter that shows a number.
abbrev pub Shows : Counter → ℕ → Type 0
Shows k n = IsHighWater k × (k.current ≡ n)

pub Shows-inc_if :
    (b : Bool) (k : Counter) (n m : ℕ)
    → Shows k n
    → n + 1 < 2 ^ 63
    → m ≡ (if b then n + 1 else n)
    → Shows (if b then inc k else k) m
Shows-inc_if true k n m (h, e) l q =
    let (i, c, x) = inc-IsHighWater k h (rw (← e) at l) in (i, c ∙ ap (λ y. y + 1) e ∙ sym q)
Shows-inc_if false k n m (h, e) l q = (h, e ∙ sym q)

pub Shows-dec : (k : Counter) (n m : ℕ) → Shows k n → m + 1 ≡ n → Shows (dec k) m
Shows-dec k n m (h, e) q =
    let (i, c, x) = dec-IsHighWater k h (omega (arith, e, q)) in (i, omega (arith, c, e, q))

pub Shows-dec_if :
    (b : Bool) (k : Counter) (n m : ℕ)
    → Shows k n
    → m + (if b then 0 else 1) ≡ n
    → Shows (if b then k else dec k) m
Shows-dec_if true k n m (h, e) q = (h, omega (arith, e, q))
Shows-dec_if false k n m s q = Shows-dec k n m s q
