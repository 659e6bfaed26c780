-- ===== src/Router/Reached.antt =====
-- The loops of `_matches` in oximqtt/src/router.rs come by every relation of every filter.
use oximqtt.Base.{
  ℕ, ◌≡◌, sym, ap, ◌∙◌, false, none, List, [], ◌∷◌, ok, All, arith, Bool-cases, Option-cases,
  Result-cases, inl, inr,
}
use mathlib.Core.List.{Memᴰ}
use mathlib.Core.List.Memᴰ
use oximqtt.Base.Bytes.{Bytes}
use oximqtt.Base.Maps.{lookup, bytes_key}
use oximqtt.Topic.{to_string}
use oximqtt.Trie.Iter.{Item}
use oximqtt.Subscription.{IdData, SubscriptionOptions, CollectorMap, Call, collect, shared_group}
use oximqtt.Router.{Relations, AllRelationsMap, or_empty}
use oximqtt.Router.Publish.{
  candidate, Candidate, Context, Groups, skips, push_candidate, direct_call, visit_relations,
  select_groups, visit_filters,
}
use oximqtt.Router.Matches.{
  AreGroups, IsCandidate, AreDue, visit_relations-keeps, select_groups-keeps, visit_filters-keeps,
}

abbrev pub Anything : ℕ → Bytes → Bytes → SubscriptionOptions → Type 0
Anything n f c o = Unit

any_candidates : (filter : Bytes) (cs : List Candidate) → All (IsCandidate Anything filter) cs
any_candidates filter [] = tt
any_candidates filter (c ∷ cs) = (tt, any_candidates filter cs)

any_groups : (filter : Bytes) (gs : Groups) → AreGroups Anything filter gs
any_groups filter [] = tt
any_groups filter ((g, cs) ∷ gs) = (any_candidates filter cs, any_groups filter gs)

pub any_due :
    (this_id : IdData) (filter : Bytes) (rels : Relations) → AreDue Anything this_id filter rels
any_due this_id filter rels c i o m b = tt

module _ {S : Type 0} (ctx : Context S) (this_id : IdData) (filter client : Bytes) (id : IdData)
    (opts : SubscriptionOptions) (wanted : skips this_id id opts ≡ false)
    (direct : shared_group opts ≡ none) (K : CollectorMap → Type 0)
    (step : (c : Call) (m : CollectorMap) → K m → K (collect c m))
    (start : (m : CollectorMap) → K (collect (direct_call filter client id opts) m)) where
  visit_relations-reaches :
      (rels : Relations) (gs : Groups) (cm : CollectorMap)
      → Memᴰ (client, (id, opts)) rels
      → K (visit_relations ctx this_id filter rels gs cm).1
  unfolding visit_relations
  visit_relations-reaches [] gs cm m = absurd (Memᴰ.not-nil m)
  visit_relations-reaches ((c, (i, o)) ∷ rels) gs cm (Memᴰ.head p) =
      let pc : c ≡ client = ap (λ (x : Bytes × (IdData × SubscriptionOptions)). x.0) (sym p) in
      let pi : i ≡ id = ap (λ (x : Bytes × (IdData × SubscriptionOptions)). x.1.0) (sym p) in
      let po : o ≡ opts = ap (λ (x : Bytes × (IdData × SubscriptionOptions)). x.1.1) (sym p) in
      rw (pc, pi, po)
        (rw (visit_relations, wanted, direct)
          (visit_relations-keeps Anything K (λ a m u k. step a m k) ctx this_id filter rels gs
            (collect (direct_call filter client id opts) cm) (any_due this_id filter rels)
            (any_groups filter gs) (start cm)).1)
  visit_relations-reaches ((c, (i, o)) ∷ rels) gs cm (Memᴰ.tail m) =
      elim (Bool-cases (skips this_id i o)) [
        | inl b ↦ rw (visit_relations, b) (visit_relations-reaches rels gs cm m)
        | inr b ↦ elim (Option-cases (shared_group o)) [
          | inl e ↦
              rw (visit_relations, b, e)
                (visit_relations-reaches rels gs (collect (direct_call filter c i o) cm) m)
          | inr (group, e) ↦
              rw (visit_relations, b, e)
                (visit_relations-reaches rels (push_candidate group (candidate ctx c i o) gs) cm m)
        ]
      ]

  -- What the call for a direct relation makes true holds in the end, if every call keeps it.
  pub visit_filters-reaches :
      (name : Bytes) (all : AllRelationsMap) (its : List (Item (Unit {0}))) (cm cm' : CollectorMap)
      (s s' : S) (it : Item (Unit {0}))
      → Memᴰ it its
      → to_string it.0 ≡ filter
      → Memᴰ (client, (id, opts)) (or_empty (lookup filter all))
      → visit_filters ctx this_id name all its cm s ≡ ok (cm', s')
      → K cm'
  unfolding visit_filters
  visit_filters-reaches name all [] cm cm' s s' it m q e h = absurd (Memᴰ.not-nil m)
  visit_filters-reaches name all ((levels, vs) ∷ its) cm cm' s s' it m q e h =
      let f = to_string levels in
      let visited = visit_relations ctx this_id f (or_empty (lookup f all)) [] cm in
      elim (Result-cases (select_groups ctx this_id name f visited.0 visited.1 s)) [
        | inr (x, p) ↦ (let h' = rw (visit_filters, p) at h in absurd (ground arith))
        | inl ((cm₁, t), p) ↦
            let r = rw (visit_filters, p) at h in
            elim (Memᴰ.cases_cons m) [
              | inr z ↦ visit_filters-reaches name all its cm₁ cm' t s' it z q e r
              | inl z ↦
                  let w : f ≡ filter = sym (ap (λ (x : Item (Unit {0})). to_string x.0) z) ∙ q in
                  let k₀ = visit_relations-reaches (or_empty (lookup filter all)) [] cm e in
                  let visited' =
                    visit_relations ctx this_id filter (or_empty (lookup filter all)) [] cm in
                  let k₁ =
                    select_groups-keeps Anything K (λ a m u k. step a m k) ctx this_id name filter
                      visited'.0 visited'.1 cm₁ s t (any_groups filter visited'.0) k₀ (rw w at p) in
                  visit_filters-keeps Anything K (λ a m u k. step a m k) ctx this_id name all its
                    cm₁ cm' t s'
                    (λ x y. any_due this_id (to_string x.0) (or_empty (lookup (to_string x.0) all)))
                    k₁ r
            ]
      ]
