-- ===== src/Inflight/Tests.antt =====
-- Runs of oximqtt/src/inflight.rs, and the theorems at concrete windows.
use oximqtt.Base.{ℕ, ◌<◌, ◌≡◌, false, refl, Bool, true, [], ◌∷◌, ok, err, arith, leb}
use oximqtt.Base.OrdSet.{contains, insert_sorted, insert, erase, remove}
use oximqtt.Codec.Qos.{exactly_once}
use oximqtt.Inflight
use oximqtt.Inflight.{
  number_order, interval, timeout, get_timeout, front_timeout, next_id_loop, next_id, InInflight,
  new, add, is_full, inflight_window_full, packet_id_in_use,
}
use oximqtt.Inflight.Ids.{next_id-finds}
use oximqtt.Inflight.Window.{IsUnique, IsValid}

windows : Unit {0}
unfolding contains insert_sorted insert erase remove interval timeout get_timeout front_timeout
    next_id_loop next_id add is_full Inflight.contains Inflight.remove IsUnique
windows = tt

-- The identifiers 1 and 2 are in use.
abbrev in_use : ℕ → Bool
in_use i = leb i 2

abbrev window : InInflight
window = record { cached = 3 ∷ 5 ∷ []; in_inflights = 2; max_inflight = 4 }

window-IsValid : IsValid window
unfolding windows
window-IsValid = record { within = omega arith; counted = refl; unique = (refl, (refl, tt)) }

add_new :
    add 4 exactly_once window
    ≡ (ok true, record { cached = 3 ∷ 4 ∷ 5 ∷ []; in_inflights = 3; max_inflight = 4 })
unfolding windows
add_new = refl

add_again : (add 5 exactly_once window).0 ≡ err (packet_id_in_use 5)
unfolding windows
add_again = refl

interval_both : interval 30 20 ≡ 20
unfolding windows
interval_both = refl

next_id_two : (next_id_loop in_use 3 1).0 ≡ ok 3
unfolding windows
next_id_two = refl

next_id_five : (next_id in_use 65_535).0 ≡ ok 65_535
unfolding windows
next_id_five = refl

next_id-finds_example :
    (i : ℕ) × ((next_id in_use 65_534).0 ≡ ok i) × (in_use i ≡ false) × (0 < i) × (i < 65_536)
next_id-finds_example = next_id-finds in_use 65_534 5 (omega arith) (omega arith) (omega arith) refl
