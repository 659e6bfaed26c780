-- ===== src/Router/Complete.antt =====
-- Whom `matches` of oximqtt/src/router.rs delivers to: every direct subscriber of a matching filter.
use oximqtt.Base.{◌≡◌, ◌≢◌, refl, sym, ◌∙◌, true, false, none, some, List, [], ◌∷◌, ok, arith}
use mathlib.Core.List.{Memᴰ}
use mathlib.Core.List.Memᴰ
use oximqtt.Base.OrdSet
use oximqtt.Base.Bytes.{Bytes}
use oximqtt.Base.Maps.{lookup, bytes_key, number_key, entry_iff, has_key}
use oximqtt.Topic.{Topic, from_str, to_string}
use oximqtt.Topic.Print.{to_string-from_str}
use oximqtt.Trie.Matching.{Reaches}
use oximqtt.Trie.Complete.{matches_iff}
use oximqtt.Trie.Paths.{values_at}
use oximqtt.Subscription.{
  IdData, SubscriptionOptions, CollectorMap, Call, collect, collector, relations_of, relation_v3,
  shared_group, is_v3,
}
use oximqtt.Subscription.Keyed.{
  AreKeyed, collect-AreKeyed, no_relations-IsKeyed, times, times-relations_of, older-collect,
  has_key-collect, collect-older, collect-has_key,
}
use oximqtt.Router.{DefaultRouter, or_empty, unit_ord}
use oximqtt.Router.Publish.{
  Context, direct_call, visit_filters, SubRelationsMap, relations_map, matching, matches,
}
use oximqtt.Router.Keys.{IsValid, holds, inner-or_empty, has_key-lookup}
use oximqtt.Router.Updates.{relation}
use oximqtt.Router.Reached.{Anything, any_due, visit_filters-reaches}
use oximqtt.Router.Matches.{visit_filters-keeps}
use oximqtt.Router.Sound.{IsWanted, skips_iff, delivered, delivered-relations_map, matches_inv}

values_of_holds : (xs : List (Unit {0})) → OrdSet.contains tt xs ≡ true → xs ≢ []
unfolding OrdSet.contains
values_of_holds [] h = absurd (ground arith)
values_of_holds (x ∷ xs) h = λ q. cc q

relation-has_key :
    (f c : Bytes) (r : DefaultRouter) (x : IdData × SubscriptionOptions)
    → relation f c r ≡ some x
    → has_key f r.relations ≡ true
unfolding lookup
relation-has_key f c r x h = ground (arith, has_key-lookup f r.relations)

module _ {S : Type 0} (ctx : Context S) (this_id : IdData) (name : Bytes) (t : Topic)
    (r : DefaultRouter) (m : SubRelationsMap) (s s' : S) (valid : IsValid r)
    (parses : from_str name ≡ ok t) (routes : matches ctx this_id name r s ≡ ok (m, s')) where
  module _ (f c : Bytes) (u : Topic) (id : IdData) (opts : SubscriptionOptions)
      (subscribed : relation f c r ≡ some (id, opts)) (wanted : IsWanted this_id id opts)
      (direct : shared_group opts ≡ none) (filter : from_str f ≡ ok u)
      (reaches : Reaches true u t) where
    -- What the call for the relation makes true, and every call keeps, holds of the collectors.
    matches-reaches :
        (K : CollectorMap → Type 0)
        → ((k : Call) (cm : CollectorMap) → K cm → K (collect k cm))
        → ((cm : CollectorMap) → K (collect (direct_call f c id opts) cm))
        → (cm : CollectorMap) × (m ≡ relations_map cm)
          × (visit_filters ctx this_id name r.relations (matching r t) [] s ≡ ok (cm, s'))
          × K cm
    unfolding matching
    matches-reaches K step start =
        let (cm, q, w) = matches_inv ctx this_id name t r m s s' parses routes in
        let h : holds u r.topics ≡ true =
          sym (valid.keys f u filter) ∙ relation-has_key f c r (id, opts) subscribed in
        let vs = values_at u r.topics in
        let z : Memᴰ (u, vs) (matching r t) =
          (matches_iff r.topics t u vs).1 (refl, values_of_holds vs h, reaches) in
        let rels = or_empty (lookup f r.relations) in
        let e = (entry_iff c (id, opts) rels (inner-or_empty r f valid)).1 subscribed in
        (
          cm,
          q,
          w,
          visit_filters-reaches ctx this_id f c id opts ((skips_iff this_id id opts).1 wanted)
              direct K step start name r.relations (matching r t) [] cm s s' (u, vs) z
              (to_string-from_str f u filter) e w,
        )

    -- A client of MQTT 3 gets the publication once for each of its subscriptions that match.
    pub matches-older :
        is_v3 opts ≡ true → Memᴰ (relation_v3 (direct_call f c id opts)) (delivered id.node_id m)
    unfolding relations_of
    matches-older old =
        let x = relation_v3 (direct_call f c id opts) in
        let (cm, q, w, k) =
          matches-reaches (λ cm. Memᴰ x (collector id.node_id cm).v3_rels)
            (λ k cm z. older-collect id.node_id x k cm z)
            (λ cm. collect-older (direct_call f c id opts) cm old) in
        rw (q, delivered-relations_map id.node_id cm) (Memᴰ.append_left _ k)

    -- A client of MQTT 5 gets the publication once, however many of its subscriptions match.
    pub matches-newer : is_v3 opts ≡ false → times c (delivered id.node_id m) ≡ 1
    unfolding lookup
    matches-newer new =
        let n = id.node_id in
        let (cm, q, w, k) =
          matches-reaches (λ cm. has_key c (collector n cm).v5_rels ≡ true)
            (λ k cm z. has_key-collect n c k cm z)
            (λ cm. collect-has_key (direct_call f c id opts) cm new) in
        let keyed =
          visit_filters-keeps Anything AreKeyed (λ k cm u. collect-AreKeyed k cm) ctx this_id name
            r.relations (matching r t) [] cm s s'
            (λ it z.
              any_due this_id (to_string it.0) (or_empty (lookup (to_string it.0) r.relations)))
            (λ n. no_relations-IsKeyed) w in
        rw (q, delivered-relations_map n cm)
          (times-relations_of c (collector n cm) (keyed n) ∙ rw k refl)
