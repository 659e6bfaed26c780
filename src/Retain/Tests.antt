-- ===== src/Retain/Tests.antt =====
-- Runs of oximqtt/src/retain.rs and oximqtt/src/builtins/retainer.rs, and the theorems at a concrete
-- storage.
use oximqtt.Base.{
  ◌⊎◌, ◌<◌, ◌+◌, ◌^◌, ℕ, ◌≤◌, ◌≡◌, refl, ◌↔◌, true, false, none, some, List, [], ◌∷◌, ok,
  if◌then◌else◌, arith,
}
use mathlib.Core.List.{Memᴰ}
use oximqtt.Base.Bytes.{Bytes, codes, bytes_eq, has_byte, starts_with_byte}
use oximqtt.Topic.{
  Topic, has_wildcard, is_metadata_str, level_is_valid, position, is_valid, level_from_str, split,
  collect_levels, from_str, level_to_string, write_rest, to_string, level_eq, normal, metadata,
  multi_wildcard,
}
use oximqtt.Trie.Paths.{path_eq}
use oximqtt.Trie.Matching.{Reaches}
use oximqtt.Counter.{inc, incs, dec, decs}
use oximqtt.Retain.{
  get, put, drop_key, insert, remove, matches_from, exact, single_layer, multilayer, matches,
  values_size, nodes_size, retain_from, retain_branches,
}
use oximqtt.Retain.Paths.{value_at}
use oximqtt.Retain.Trees.{IsTree, AreTrees}
use oximqtt.Retain.Filters.{matches_iff_Reaches}
use oximqtt.Retain.Storage.{
  DefaultRetainStorage, Retain, TimedValue, PluginConfig, new, new_timed, set_parsed,
  set_with_timeout, unexpired, get_message, snapshot, get_all_paginated, remove_expired_messages,
  set,
}
use oximqtt.Retain.Storage.Messages.{
  IsValid, IsDue, new-IsValid, retained_value, set_with_timeout-IsValid, value_at-set_parsed,
  get_message_iff,
}
use oximqtt.Retain.Storage.Cap.{IsAccepted, set-capped}
use oximqtt.Retain.Storage.Pruned.{kept}
use oximqtt.Retain.Storage.Expiry.{remove_expired_messages-IsValid}

retained : Unit {0}
unfolding bytes_eq has_byte starts_with_byte has_wildcard is_metadata_str level_is_valid position
    is_valid level_from_str split collect_levels from_str level_to_string write_rest to_string
    level_eq inc incs dec decs get put drop_key insert remove matches_from exact single_layer
    multilayer values_size nodes_size retain_from retain_branches value_at set_parsed
    set_with_timeout unexpired get_message snapshot get_all_paginated remove_expired_messages set
    IsTree AreTrees
retained = tt

abbrev message : ℕ → Retain
message n = record { payload = n ∷ []; retained = n }

abbrev empty_message : Retain
empty_message = record { payload = []; retained = 0 }

abbrev a_b : Topic
a_b = normal (codes "a") ∷ normal (codes "b") ∷ []

-- $SYS
abbrev system : Topic
system = metadata (codes "$SYS") ∷ []

abbrev one : DefaultRetainStorage
one = set_parsed 10 a_b (message 1) (some 5) new

abbrev two : DefaultRetainStorage
two = set_parsed 10 system (message 2) none one

abbrev three : DefaultRetainStorage
three = set_parsed 10 (normal (codes "a") ∷ []) (message 3) none two

parsed : from_str (codes "a/b") ≡ ok a_b
unfolding retained
parsed = refl

finds_parent :
    get_message 11 (codes "a/#") three ≡ ok ((codes "a", message 3) ∷ (codes "a/b", message 1) ∷ [])
unfolding retained
finds_parent = refl

hides_system :
    get_message 11 (codes "#") three ≡ ok ((codes "a", message 3) ∷ (codes "a/b", message 1) ∷ [])
unfolding retained
hides_system = refl

expires : get_message 15 (codes "a/+") three ≡ ok []
unfolding retained
expires = refl

cleared : (set_parsed 10 a_b empty_message none three).retaineds.current ≡ 2
unfolding retained
cleared = refl

removes_expired :
    ((remove_expired_messages 15 three).1 ≡ 1)
    × ((remove_expired_messages 15 three).0.retaineds.current ≡ 2)
unfolding retained
removes_expired = (refl, refl)

pages : get_all_paginated 11 1 1 three ≡ ok ((codes "a/b", (message 1, some 4)) ∷ [], false)
unfolding retained
pages = refl

abbrev config : PluginConfig
config = record { max_retained_messages = 1; max_payload_size = 4; retained_message_ttl = none }

refuses_new : set config 11 (codes "c") (message 9) none one ≡ ok one
unfolding retained
refuses_new = refl

-- At the limit an expired message still has its place, but its topic counts as new.
refuses_expired : set config 15 (codes "a/b") (message 9) none one ≡ ok one
unfolding retained
refuses_expired = refl

abbrev changed : DefaultRetainStorage
changed = set_parsed 11 a_b (message 9) none one

changes : set config 11 (codes "a/b") (message 9) none one ≡ ok changed
unfolding retained
changes = refl

set_one : set_with_timeout 10 (codes "a/b") (message 1) (some 5) new ≡ ok one
unfolding retained
set_one = refl

one-IsValid : IsValid one
unfolding retained
one-IsValid =
    set_with_timeout-IsValid 10 (codes "a/b") a_b (message 1) (some 5) new one new-IsValid parsed
      (refl, (refl, tt)) (omega arith) set_one

one_is_tree : IsTree one.messages
one_is_tree = one-IsValid.tree

abbrev under_a : Topic
under_a = normal (codes "a") ∷ multi_wildcard ∷ []

under_a-is_valid : is_valid under_a ≡ true
unfolding retained
under_a-is_valid = refl

parsed_under_a : from_str (codes "a/#") ≡ ok under_a
unfolding retained
parsed_under_a = refl

abbrev value_one : TimedValue Retain
value_one = new_timed 10 (message 1) (some 5)

matches_iff_Reaches_example :
    Memᴰ (a_b, value_one) (matches under_a one.messages)
    ↔ ((value_at a_b one.messages ≡ some value_one) × Reaches true under_a a_b)
matches_iff_Reaches_example =
    matches_iff_Reaches one.messages under_a (normal (codes "a")) (normal (codes "b") ∷ [])
      value_one one_is_tree under_a-is_valid

abbrev found : List (Bytes × Retain)
found = (codes "a/b", message 1) ∷ []

given_one : get_message 11 (codes "a/#") one ≡ ok found
unfolding retained
given_one = refl

get_message_iff_example :
    Memᴰ (codes "a/b", message 1) found ↔ IsDue 11 under_a (codes "a/b") (message 1) one
get_message_iff_example =
    get_message_iff 11 (codes "a/#") under_a one (codes "a/b") (message 1) found one-IsValid
      parsed_under_a given_one

at_the_limit : values_size one.messages ≤ config.max_retained_messages
unfolding retained
at_the_limit = omega arith

set-capped_example :
    IsValid changed
    × (values_size changed.messages ≤ config.max_retained_messages)
    × (((¬ IsAccepted config 11 a_b (message 9) one) × (one ≡ changed))
        ⊎ (IsAccepted config 11 a_b (message 9) one
            × ((u : Topic)
                → value_at u changed.messages ≡ (
                    if path_eq a_b u
                    then retained_value 11 (message 9) none
                    else value_at u one.messages))))
set-capped_example =
    set-capped config 11 (codes "a/b") a_b (message 9) none one changed one-IsValid parsed
      (refl, (refl, tt)) (omega arith) (omega arith) at_the_limit changes

value_at-set_parsed_example :
    value_at a_b (set_parsed 11 system (message 2) none one).messages
    ≡ (if path_eq system a_b then retained_value 11 (message 2) none else value_at a_b one.messages)
value_at-set_parsed_example = value_at-set_parsed 11 system a_b (message 2) none one

room_for_one : values_size one.messages < 2 ^ 63
unfolding retained
room_for_one = omega arith

remove_expired_messages-IsValid_example :
    (value_at a_b (remove_expired_messages 15 one).0.messages ≡ kept 15 (value_at a_b one.messages))
    × ((remove_expired_messages 15 one).1 + values_size (remove_expired_messages 15 one).0.messages
        ≡ values_size one.messages)
    × IsValid (remove_expired_messages 15 one).0
remove_expired_messages-IsValid_example =
    remove_expired_messages-IsValid 15 one (normal (codes "a")) (normal (codes "b") ∷ [])
      one-IsValid room_for_one
