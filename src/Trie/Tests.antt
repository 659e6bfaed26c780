-- ===== src/Trie/Tests.antt =====
-- Runs of the topic tree of oximqtt/src/trie.rs, and the theorems at concrete trees.
use oximqtt.Base.{
  ℕ, suc, ◌≡◌, ◌≢◌, refl, ◌↔◌, true, false, List, [], ◌∷◌, ltb, ◌==◌, ==_iff, length, if◌then◌else◌,
}
use mathlib.Core.List.{Memᴰ}
use oximqtt.Base.OrdSet
use oximqtt.Base.OrdSet.{Ord}
use oximqtt.Base.Bytes.{codes, bytes_eq}
use oximqtt.Topic.{Topic, normal, single_wildcard, multi_wildcard, metadata, level_eq}
use oximqtt.Trie.{Node, default, get, put, drop_key, insert, remove, values_size, nodes_size}
use oximqtt.Trie.Paths.{values_at, path_eq, values_at-remove}
use oximqtt.Trie.Iter.{prepare, poll, next_item, refill, next, matches}
use oximqtt.Trie.Items.{items, collect, collect-matches}
use oximqtt.Trie.Matching.{Reaches}
use oximqtt.Trie.Complete.{matches_iff}

instance abbrev nat_ord : Ord ℕ
nat_ord = record { lt = ltb; beq = ◌==◌; beq_iff = ==_iff }

tree : Unit {0}
unfolding OrdSet.contains OrdSet.insert_sorted OrdSet.insert OrdSet.erase OrdSet.remove bytes_eq
    level_eq get put drop_key insert remove values_size nodes_size values_at prepare poll next_item
    refill next items collect
tree = tt

-- a/+
abbrev plus : Topic
plus = normal (codes "a") ∷ single_wildcard ∷ []

-- a/b
abbrev plain : Topic
plain = normal (codes "a") ∷ normal (codes "b") ∷ []

abbrev all_topics : Topic
all_topics = multi_wildcard ∷ []

abbrev three : Node ℕ
three = (insert all_topics 7 (insert plain 2 (insert plus 1 (default {V = ℕ})).0).0).0

walk_plain :
    collect 9 3 (matches three plain) ≡ (all_topics, 7 ∷ []) ∷ (plus, 1 ∷ []) ∷ (plain, 2 ∷ []) ∷ []
unfolding tree
walk_plain = refl

walk_system : collect 9 3 (matches three (metadata (codes "$SYS") ∷ [])) ≡ []
unfolding tree
walk_system = refl

sizes : (values_size three ≡ 3) × (nodes_size three ≡ 4)
unfolding tree
sizes = (refl, refl)

insert_again : (insert plus 1 three).1 ≡ false
unfolding tree
insert_again = refl

remove_prunes : nodes_size (remove plus 1 (remove plain 2 three).0).0 ≡ 1
unfolding tree
remove_prunes = refl

values_at-remove_example : values_at plus (remove plus 1 three).0 ≡ (
    if path_eq plus plus then (OrdSet.remove 1 (values_at plus three)).0 else values_at plus three)
values_at-remove_example = values_at-remove plus plus 1 three

collect-matches_example :
    collect (suc (length (items plain three []))) (suc (length plain)) (matches three plain)
    ≡ items plain three []
collect-matches_example = collect-matches three plain

abbrev one : List ℕ
one = 1 ∷ []

matches_iff_example :
    Memᴰ
      (plus, one)
      (collect (suc (length (items plain three []))) (suc (length plain)) (matches three plain))
    ↔ ((one ≡ values_at plus three) × (one ≢ []) × Reaches true plus plain)
matches_iff_example = matches_iff three plain plus one
