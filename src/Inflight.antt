-- ===== src/Inflight.antt =====
-- oximqtt/src/inflight.rs: the packet identifiers and intervals of `OutInflight`, and the window
-- `InInflight` of QoS 2. The map of the outbound messages is the crate `rust_box`: of it `next_id`
-- asks whether a key is there, which is a parameter. A packet identifier is its number.
pub mod Ids
pub mod Window
pub mod Removed
pub mod Tests
use oximqtt.Base.{
  ℕ, zero, suc, ◌+◌, ◌-◌, ◌*◌, ◌%◌, ◌≤◌, ◌<◌, ◌≡◌, Bool, true, false, ◌&&◌, Option, none, some,
  List, [], length, leb, ltb, ◌==◌, ==_iff, Result, ok, err, if◌then◌else◌,
}
use oximqtt.Base.OrdSet
use oximqtt.Base.OrdSet.{Ord}
use oximqtt.Codec.Qos.{QoS, at_most_once, at_least_once, exactly_once}

-- `OutInflight::interval`
unfoldable pub interval : ℕ → ℕ → ℕ
interval retry_interval expiry_interval =
    if retry_interval == 0
    then expiry_interval
    else if expiry_interval == 0
    then retry_interval
    else if leb retry_interval expiry_interval
    then retry_interval
    else expiry_interval

-- `OutInflightMessage::timeout`, at a time `now` that is not before the last update.
unfoldable pub timeout : ℕ → ℕ → ℕ → Bool
timeout now update_time interval_millis =
    ltb 0 interval_millis && leb interval_millis (now - update_time)

-- `OutInflight::get_timeout` in milliseconds, for the time of the last update of the front message,
-- at a time `now` that is not before it.
unfoldable pub get_timeout : ℕ → ℕ → Option ℕ → Option ℕ
get_timeout now interval none = none
get_timeout now interval (some update_time) =
    if interval == 0
    then none
    else if ltb (now - update_time) interval
    then some (interval - (now - update_time))
    else some 1

-- `OutInflight::front_timeout`, in the same terms.
unfoldable pub front_timeout : ℕ → ℕ → Option ℕ → Bool
front_timeout now interval none = false
front_timeout now interval (some update_time) =
    if interval == 0 then false else timeout now update_time interval

-- The loop of `OutInflight::next_id`, with the rounds that are left. `fetch_add` wraps at 2 ^ 16.
unfoldable pub next_id_loop : (ℕ → Bool) → ℕ → ℕ → Result (Unit {0}) ℕ × ℕ
next_id_loop contains_key zero next = (err tt, next)
next_id_loop contains_key (suc n) next =
    let rest = next_id_loop contains_key n ((next + 1) % 65_536) in
    if next == 0 then rest else if contains_key next then rest else (ok next, (next + 1) % 65_536)

-- `OutInflight::next_id`: the identifier and the counter after it.
unfoldable pub next_id : (ℕ → Bool) → ℕ → Result (Unit {0}) ℕ × ℕ
next_id contains_key next = next_id_loop contains_key 65_535 next

instance abbrev pub number_order : Ord ℕ
number_order = record { lt = ltb; beq = λ a b. a == b; beq_iff = ==_iff }

pub data Reason : Type 0 where
  inflight_window_full : Reason
  packet_id_in_use : ℕ → Reason

-- `in_inflights` is the share of this window in the counter of that name.
pub record InInflight : Type 0 where
  pub cached : List ℕ
  pub in_inflights : ℕ
  pub max_inflight : ℕ

-- `InInflight::new`
abbrev pub new : ℕ → InInflight
new max_inflight = record { cached = []; in_inflights = 0; max_inflight = max_inflight }

abbrev pub is_exactly_once : QoS → Bool
is_exactly_once exactly_once = true
is_exactly_once _ = false

-- `InInflight::add`, with what `insert` says of the identifier.
abbrev pub added : ℕ → QoS → InInflight → List ℕ × Bool → Result Reason Bool × InInflight
added pid qos w (cached, true) = (
  ok true,
  record { cached = cached; in_inflights = w.in_inflights + 1; max_inflight = w.max_inflight },
)
added pid qos w (cached, false) =
    if is_exactly_once qos then (err (packet_id_in_use pid), w) else (ok false, w)

-- `InInflight::is_full`
unfoldable pub is_full : InInflight → Bool
is_full w = leb w.max_inflight (length w.cached)

-- `InInflight::add`
unfoldable pub add : ℕ → QoS → InInflight → Result Reason Bool × InInflight
add pid qos w =
    if leb w.max_inflight (length w.cached)
    then (err inflight_window_full, w)
    else added pid qos w (OrdSet.insert pid w.cached)

-- `InInflight::contains`
unfoldable pub contains : ℕ → InInflight → Bool
contains pid w = OrdSet.contains pid w.cached

-- `InInflight::remove`
unfoldable pub remove : ℕ → InInflight → Bool × InInflight
remove pid w =
    let (cached, removed) = OrdSet.remove pid w.cached in
    if removed
    then (
      true,
      record { cached = cached; in_inflights = w.in_inflights - 1; max_inflight = w.max_inflight },
    )
    else (false, w)
