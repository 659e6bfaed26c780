-- ===== src/Counter/Tests.antt =====
-- Runs of the counter of oximqtt/src/utils/counter.rs.
use oximqtt.Base.{◌-◌, ◌^◌, ◌≡◌, refl}
use oximqtt.Counter.{
  new, new_with, merge_none, merge_sum, merge_max, merge_min, incs, inc, decs, dec, current_incs,
  current_set, sets, count_min, count_max, max_max, max_min, add, set, stats_merge, merge,
}

counter : Unit {0}
unfolding incs inc decs dec current_incs current_set sets count_min count_max max_max max_min add
    set stats_merge merge
counter = tt

up_and_down : dec (inc (inc new)) ≡ new_with 1 2 merge_none
unfolding counter
up_and_down = refl

-- Below 0 the count wraps to -1, which is below every maximum.
below_zero : inc (dec new) ≡ new_with 0 0 merge_none
unfolding counter
below_zero = refl

negative_maximum : sets 0 (new_with 5 (2 ^ 64 - 1) merge_none) ≡ new_with 0 0 merge_none
unfolding counter
negative_maximum = refl

merged_sum : merge (new_with 1 4 merge_none) (new_with 2 3 merge_sum) ≡ new_with 3 7 merge_sum
unfolding counter
merged_sum = refl

merged_max : merge (new_with 1 4 merge_none) (new_with 2 3 merge_max) ≡ new_with 2 4 merge_max
unfolding counter
merged_max = refl

merged_min : merge (new_with 1 4 merge_none) (new_with 2 3 merge_min) ≡ new_with 1 3 merge_min
unfolding counter
merged_min = refl

copied : set (new_with 1 4 merge_max) (current_set 9 (current_incs 3 new)) ≡ new_with 1 4 merge_none
unfolding counter
copied = refl
