-- ===== src/Router/Tests.antt =====
-- Runs of the router of oximqtt/src/router.rs, and the theorems at a concrete one.
use oximqtt.Base.{
  ℕ, ◌≤◌, ◌≡◌, refl, true, false, Option, none, some, List, [], ◌∷◌, map, ok, err, length, arith,
  inl, inr,
}
use mathlib.Core.List.{Memᴰ}
use oximqtt.Base.OrdSet
use oximqtt.Base.Bytes.{Bytes, codes, bytes_eq, has_byte, starts_with_byte}
use oximqtt.Base.Maps.{lookup, has_key, set, unset, bytes_key, number_key}
use oximqtt.Codec.Qos.{at_most_once}
use oximqtt.Topic.{
  Topic, has_wildcard, is_metadata_str, level_is_valid, position, is_valid, level_from_str, split,
  collect_levels, from_str, level_to_string, write_rest, to_string, level_eq, normal,
  single_wildcard, multi_wildcard,
}
use oximqtt.Trie
use oximqtt.Trie.Iter.{prepare, poll, next_item, refill, next}
use oximqtt.Trie.Items.{items, collect}
use oximqtt.Counter.{inc, incs, dec, decs}
use oximqtt.Subscription.{
  IdData, id_eq, SubscriptionOptions, v3, v5, relations_of, relation_v3, add,
}
use oximqtt.Subscription
use oximqtt.Subscription.Choice.{choice, choice_loop}
use oximqtt.Router.Shared.{default_context, matches-answers}
use oximqtt.Router.Keys.{IsValid}
use oximqtt.Subscription.Keyed.{times}
use oximqtt.Router.{DefaultRouter, add_parsed, remove_filter, remove, unit_ord, without}
use oximqtt.Router.Publish.{
  Context, push_candidate, visit_relations, select_groups, visit_filters, relations_map, matching,
  matches, direct_call, SubRelationsMap,
}
use oximqtt.Router
use oximqtt.Router.Updates.{relation}
use oximqtt.Router.Counts.{IsCounted, size}
use oximqtt.Router.Runs.{
  Request, adds, removes, step, run, meaning, run-IsValid, run-meaning, run-IsCounted,
}
use oximqtt.Router.Sound.{delivered, IsDue, matches-IsDue}
use oximqtt.Router.Complete.{matches-older, matches-newer}

router : Unit {0}
unfolding bytes_eq has_byte starts_with_byte has_wildcard is_metadata_str level_is_valid position
    is_valid level_from_str split collect_levels from_str level_to_string write_rest to_string
    level_eq OrdSet.contains OrdSet.insert_sorted OrdSet.insert OrdSet.erase OrdSet.remove Trie.get
    Trie.put Trie.drop_key Trie.insert Trie.remove prepare poll next_item refill next items collect
    lookup has_key set unset inc incs dec decs id_eq Subscription.add Subscription.collect
    relations_of choice choice_loop times add_parsed Router.add remove_filter remove push_candidate
    visit_relations select_groups visit_filters relations_map matching matches step run meaning size
router = tt

abbrev ann : IdData
ann = record { node_id = 1; client_id = codes "ann"; identity = 10 }

abbrev bob : IdData
bob = record { node_id = 1; client_id = codes "bob"; identity = 11 }

-- The same client in a later session.
abbrev ann_again : IdData
ann_again = record { node_id = 1; client_id = codes "ann"; identity = 12 }

abbrev old_options : SubscriptionOptions
old_options = v3 record { qos = at_most_once; shared_group = none; limit_subs = none }

abbrev new_options : Option ℕ → Option Bytes → SubscriptionOptions
new_options id group = v5 record {
  qos = at_most_once;
  shared_group = group;
  limit_subs = none;
  no_local = true;
  retain_as_published = false;
  retain_handling = 0;
  id = id;
}

abbrev requests : List Request
requests =
    adds (codes "#") bob (new_options (some 8) none)
    ∷ adds (codes "a/+") bob (new_options (some 7) none)
    ∷ adds (codes "a/+") ann old_options
    ∷ adds (codes "a/#/b") ann old_options
    ∷ []

abbrev two : DefaultRouter
two = run requests

abbrev context : Context ℕ
context = default_context (λ n c. true)

abbrev result : SubRelationsMap
result = elim (matches context ann (codes "a/b") two 0) [ ok m ↦ m.0 | err e ↦ [] ]

abbrev a_b : Topic
a_b = normal (codes "a") ∷ normal (codes "b") ∷ []

abbrev summary : Subscription.SubRelation → Bytes × Option (List ℕ)
summary x = (x.client_id, x.sub_ids)

delivers :
    map summary (delivered 1 result) ≡ (codes "ann", none) ∷ (codes "bob", some (8 ∷ 7 ∷ [])) ∷ []
unfolding router
delivers = refl

counts : (two.topics_count.current ≡ 2) × (two.relations_count.current ≡ 3)
unfolding router
counts = (refl, refl)

removes_all :
    (run (removes (codes "#") bob ∷ removes (codes "#") ann ∷ requests)).topics
    ≡ (run (adds (codes "a/+") bob (new_options none none) ∷ [])).topics
unfolding router
removes_all = refl

refuses : (remove (codes "a/+") ann_again two).0 ≡ ok false
unfolding router
refuses = refl

run-IsValid_example : IsValid two
run-IsValid_example = run-IsValid requests

run-meaning_example :
    relation (codes "a/+") (codes "ann") two ≡ meaning requests (codes "a/+") (codes "ann")
run-meaning_example = run-meaning requests (codes "a/+") (codes "ann")

run-IsCounted_example :
    IsCounted two
    × (length two.relations ≤ length requests)
    × (size two.relations ≤ length requests)
run-IsCounted_example = run-IsCounted requests (omega arith)

parsed : from_str (codes "a/b") ≡ ok a_b
unfolding router
parsed = refl

routed : matches context ann (codes "a/b") two 0 ≡ ok (result, 0)
unfolding router
routed = refl

matches-answers_example :
    (m : SubRelationsMap) × (seq' : ℕ) × (matches
        (default_context (λ n c. true))
        ann
        (codes "a/b")
        two
        0
      ≡ ok (m, seq'))
matches-answers_example = matches-answers (λ n c. true) ann (codes "a/b") a_b two 0 parsed

abbrev to_ann : Subscription.SubRelation
to_ann = relation_v3 (direct_call (codes "a/+") (codes "ann") ann old_options)

ann_is_subscribed : relation (codes "a/+") (codes "ann") two ≡ some (ann, old_options)
unfolding router
ann_is_subscribed = refl

bob_is_subscribed : relation (codes "#") (codes "bob") two ≡ some (bob, new_options (some 8) none)
unfolding router
bob_is_subscribed = refl

bob_is_not_ann : id_eq ann bob ≡ false
unfolding router
bob_is_not_ann = refl

parsed_plus : from_str (codes "a/+") ≡ ok (normal (codes "a") ∷ single_wildcard ∷ [])
unfolding router
parsed_plus = refl

parsed_all : from_str (codes "#") ≡ ok (multi_wildcard ∷ [])
unfolding router
parsed_all = refl

matches-older_example : Memᴰ to_ann (delivered 1 result)
matches-older_example =
    matches-older context ann (codes "a/b") a_b two result 0 0 (run-IsValid requests) parsed routed
      (codes "a/+") (codes "ann") (normal (codes "a") ∷ single_wildcard ∷ []) ann old_options
      ann_is_subscribed (inl (λ q. cc q)) refl parsed_plus (inl (refl, inr (refl, inr (refl, tt))))
      refl

matches-newer_example : times (codes "bob") (delivered 1 result) ≡ 1
matches-newer_example =
    matches-newer context ann (codes "a/b") a_b two result 0 0 (run-IsValid requests) parsed routed
      (codes "#") (codes "bob") (multi_wildcard ∷ []) bob (new_options (some 8) none)
      bob_is_subscribed (inr bob_is_not_ann) refl parsed_all (inr (refl, inl (refl, refl))) refl

delivered_to_ann : Memᴰ to_ann (delivered 1 result)
unfolding router
delivered_to_ann = Memᴰ.head refl

matches-IsDue_example : IsDue ann a_b two 1 (codes "a/+") (codes "ann") old_options
matches-IsDue_example =
    matches-IsDue context ann (codes "a/b") a_b two result 0 0 1 to_ann (run-IsValid requests)
      parsed routed delivered_to_ann

abbrev lone : DefaultRouter
lone = run (adds (codes "a/+") ann old_options ∷ [])

abbrev plus_levels : Topic
plus_levels = normal (codes "a") ∷ single_wildcard ∷ []

-- `remove` gives up the lock of the relations before it drops the filter. A client whose `add` runs
-- in between has no relation afterwards.
loses_a_subscription :
    relation
      (codes "a/+")
      (codes "bob")
      (remove_filter (codes "a/+") (
        add_parsed
          (codes "a/+")
          plus_levels
          bob
          (new_options none none)
          (without (codes "a/+") (codes "ann") ((codes "ann", (ann, old_options)) ∷ []) lone))).1
    ≡ none
unfolding router
loses_a_subscription = refl
