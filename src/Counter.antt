-- ===== src/Counter.antt =====
-- oximqtt/src/utils/counter.rs: a count and its maximum. An `isize` is its 64 bits, read as a number
-- below 2 ^ 64; every method is one atomic operation after the other, taken here without others in
-- between.
pub mod Bounds
mod Tests
use oximqtt.Base.{ℕ, ◌+◌, ◌-◌, ◌%◌, ◌^◌, Bool, true, false, ltb, if◌then◌else◌, List, [], ◌∷◌}

pub data StatsMergeMode : Type 0 where
  merge_none merge_sum merge_average merge_max merge_min : StatsMergeMode

-- The fields `0`, `1` and `2` of `Counter`.
pub record Counter : Type 0 where
  pub current : ℕ
  pub maximum : ℕ
  pub mode : StatsMergeMode

-- `Counter::new_with`
abbrev pub new_with : ℕ → ℕ → StatsMergeMode → Counter
new_with c max m = record { current = c; maximum = max; mode = m }

-- `Counter::new`
abbrev pub new : Counter
new = new_with 0 0 merge_none

-- The order of `isize` on the bits.
abbrev pub signed_ltb : ℕ → ℕ → Bool
signed_ltb a b = ltb ((a + 2 ^ 63) % 2 ^ 64) ((b + 2 ^ 63) % 2 ^ 64)

abbrev pub signed_max : ℕ → ℕ → ℕ
signed_max a b = if signed_ltb a b then b else a

abbrev pub signed_min : ℕ → ℕ → ℕ
signed_min a b = if signed_ltb b a then b else a

-- `fetch_add` and `fetch_sub` wrap.
abbrev pub plus : ℕ → ℕ → ℕ
plus a b = (a + b) % 2 ^ 64

abbrev pub minus : ℕ → ℕ → ℕ
minus a b = (a + 2 ^ 64 - b) % 2 ^ 64

-- `Counter::incs`
unfoldable pub incs : ℕ → Counter → Counter
incs c k = new_with (plus k.current c) (signed_max k.maximum (plus k.current c)) k.mode

-- `Counter::inc`
unfoldable pub inc : Counter → Counter
unfolding incs
inc k = incs 1 k

-- `Counter::current_incs`, and `current_inc` for 1
unfoldable pub current_incs : ℕ → Counter → Counter
current_incs c k = new_with (plus k.current c) k.maximum k.mode

-- `Counter::current_set`
unfoldable pub current_set : ℕ → Counter → Counter
current_set c k = new_with c k.maximum k.mode

-- `Counter::sets`
unfoldable pub sets : ℕ → Counter → Counter
sets c k = new_with c (signed_max k.maximum c) k.mode

-- `Counter::decs`
unfoldable pub decs : ℕ → Counter → Counter
decs c k = new_with (minus k.current c) k.maximum k.mode

-- `Counter::dec`
unfoldable pub dec : Counter → Counter
unfolding decs
dec k = decs 1 k

-- `Counter::count_min`, `count_max`, `max_max` and `max_min`
unfoldable pub count_min : ℕ → Counter → Counter
count_min c k = new_with (signed_min k.current c) k.maximum k.mode

unfoldable pub count_max : ℕ → Counter → Counter
count_max c k = new_with (signed_max k.current c) k.maximum k.mode

unfoldable pub max_max : ℕ → Counter → Counter
max_max m k = new_with k.current (signed_max k.maximum m) k.mode

unfoldable pub max_min : ℕ → Counter → Counter
max_min m k = new_with k.current (signed_min k.maximum m) k.mode

-- `Counter::add`
unfoldable pub add : Counter → Counter → Counter
add other k = new_with (plus k.current other.current) (plus k.maximum other.maximum) k.mode

-- `Counter::set`
unfoldable pub set : Counter → Counter → Counter
set other k = new_with other.current other.maximum k.mode

-- `stats_merge`; the mode `Average` is not implemented.
unfoldable pub stats_merge : StatsMergeMode → Counter → Counter → Counter
unfolding add count_max max_max count_min max_min
stats_merge merge_none o c = c
stats_merge merge_sum o c = add o c
stats_merge merge_max o c = max_max o.maximum (count_max o.current c)
stats_merge merge_min o c = max_min o.maximum (count_min o.current c)
stats_merge merge_average o c = c

-- `Counter::merge`
unfoldable pub merge : Counter → Counter → Counter
unfolding stats_merge
merge other k = stats_merge k.mode other k
