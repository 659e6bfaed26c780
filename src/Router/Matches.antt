-- ===== src/Router/Matches.antt =====
-- Induction over the loops of `_matches` in oximqtt/src/router.rs: what every call of `add` of a
-- collector keeps, and what one call makes true, holds in the end.
use oximqtt.Base.{
  ℕ, zero, suc, ◌≡◌, refl, Bool, false, Option, none, some, List, [], ◌∷◌, ◌++◌, ok, All, arith,
  Bool-cases, Option-cases, Result-cases, inl, inr,
}
use mathlib.Core.List.{Memᴰ}
use oximqtt.Base.Bytes.{Bytes}
use oximqtt.Base.Maps.{lookup, set, bytes_key}
use oximqtt.Topic.{to_string}
use oximqtt.Trie.Iter.{Item}
use oximqtt.Subscription.{IdData, SubscriptionOptions, CollectorMap, Call, collect, shared_group}
use oximqtt.Router.{Relations, AllRelationsMap, or_empty}
use oximqtt.Router.Publish.{
  Candidate, candidate, candidates, Context, Groups, skips, push_candidate, direct_call,
  visit_relations, taken, group_call, deliver_chosen, select_groups, visit_filters,
}

-- Subject to `P`: the node, the filter, the client and the options of a call.
module _ (P : ℕ → Bytes → Bytes → SubscriptionOptions → Type 0) where
  abbrev pub IsCall : Call → Type 0
  IsCall c = P c.node_id c.topic_filter c.client_id c.opts

  abbrev pub IsCandidate : Bytes → Candidate → Type 0
  IsCandidate filter c = P c.node_id filter c.client_id c.opts

  abbrev pub AreGroups : Bytes → Groups → Type 0
  AreGroups filter gs = All (λ g. All (IsCandidate filter) g.1) gs

  All-append :
      {A : Type 0} (Q : A → Type 0) (xs ys : List A) → All Q xs → All Q ys → All Q (xs ++ ys)
  All-append Q [] ys h k = k
  All-append Q (x ∷ xs) ys h k = (h.0, All-append Q xs ys h.1 k)

  AreGroups-lookup :
      (filter group : Bytes) (gs : Groups)
      → AreGroups filter gs
      → All (IsCandidate filter) (candidates (lookup group gs))
  unfolding lookup
  AreGroups-lookup filter group [] h = tt
  AreGroups-lookup filter group ((g, cs) ∷ gs) h = elim (Bool-cases (bytes_key.beq g group)) [
    | inl b ↦ rw (lookup, b) h.0
    | inr b ↦ rw (lookup, b) (AreGroups-lookup filter group gs h.1)
  ]

  AreGroups-set :
      (filter group : Bytes) (cs : List Candidate) (gs : Groups)
      → All (IsCandidate filter) cs
      → AreGroups filter gs
      → AreGroups filter (set group cs gs)
  unfolding set
  AreGroups-set filter group cs [] k h = (k, tt)
  AreGroups-set filter group cs ((g, ds) ∷ gs) k h = elim (Bool-cases (bytes_key.beq g group)) [
    | inl b ↦ rw (set, b) (k, h.1)
    | inr b ↦ rw (set, b) (h.0, AreGroups-set filter group cs gs k h.1)
  ]

  AreGroups-push_candidate :
      (filter group : Bytes) (c : Candidate) (gs : Groups)
      → IsCandidate filter c
      → AreGroups filter gs
      → AreGroups filter (push_candidate group c gs)
  unfolding push_candidate
  AreGroups-push_candidate filter group c gs k h =
      let old = AreGroups-lookup filter group gs h in
      AreGroups-set filter group (candidates (lookup group gs) ++ (c ∷ [])) gs
        (All-append (IsCandidate filter) (candidates (lookup group gs)) (c ∷ []) old (k, tt)) h

  IsCandidate-taken :
      (filter : Bytes) (cs : List Candidate) (i : ℕ) (c : Candidate)
      → All (IsCandidate filter) cs
      → taken cs i ≡ some c
      → IsCandidate filter c
  IsCandidate-taken filter [] i c h e = absurd (ground arith)
  IsCandidate-taken filter (d ∷ cs) zero c h e = let q : d ≡ c = ground arith in rw (← q) h.0
  IsCandidate-taken filter (d ∷ cs) (suc i) c h e = IsCandidate-taken filter cs i c h.1 e

  -- The entries of a filter's relations that are not skipped.
  abbrev pub AreDue : IdData → Bytes → Relations → Type 0
  AreDue this_id filter rels =
      (client : Bytes) (id : IdData) (opts : SubscriptionOptions)
      → Memᴰ (client, (id, opts)) rels
      → skips this_id id opts ≡ false
      → P id.node_id filter client opts

  module _ (K : CollectorMap → Type 0)
      (step : (c : Call) (m : CollectorMap) → IsCall c → K m → K (collect c m)) where
    pub visit_relations-keeps :
        {S : Type 0} (ctx : Context S) (this_id : IdData) (filter : Bytes) (rels : Relations)
        (gs : Groups) (cm : CollectorMap)
        → AreDue this_id filter rels
        → AreGroups filter gs
        → K cm
        → AreGroups filter (visit_relations ctx this_id filter rels gs cm).0
          × K (visit_relations ctx this_id filter rels gs cm).1
    unfolding visit_relations
    visit_relations-keeps ctx this_id filter [] gs cm d g k = (g, k)
    visit_relations-keeps ctx this_id filter ((client, (id, opts)) ∷ rels) gs cm d g k =
        let due : AreDue this_id filter rels = λ c i o m. d c i o (Memᴰ.tail m) in
        elim (Bool-cases (skips this_id id opts)) [
          | inl b ↦
              rw (visit_relations, b) (visit_relations-keeps ctx this_id filter rels gs cm due g k)
          | inr b ↦
              let p = d client id opts (Memᴰ.head refl) b in
              elim (Option-cases (shared_group opts)) [
                | inl e ↦
                    rw (visit_relations, b, e)
                      (visit_relations-keeps ctx this_id filter rels gs
                        (collect (direct_call filter client id opts) cm) due g
                        (step (direct_call filter client id opts) cm p k))
                | inr (group, e) ↦
                    let c = candidate ctx client id opts in
                    rw (visit_relations, b, e)
                      (visit_relations-keeps ctx this_id filter rels (push_candidate group c gs) cm
                        due (AreGroups-push_candidate filter group c gs p g) k)
              ]
        ]

    deliver_chosen-keeps :
        (filter group : Bytes) (cs : List Candidate) (picked : Option (ℕ × Bool))
        (cm cm' : CollectorMap)
        → All (IsCandidate filter) cs
        → K cm
        → deliver_chosen filter group cs picked cm ≡ ok cm'
        → K cm'
    deliver_chosen-keeps filter group cs none cm cm' g k h =
        let q : cm ≡ cm' = ground arith in rw (← q) k
    deliver_chosen-keeps filter group cs (some (i, b)) cm cm' g k h =
        elim (Option-cases (taken cs i)) [
          | inl e ↦ absurd (ground arith)
          | inr (c, e) ↦
              let q : collect (group_call filter group b cs c) cm ≡ cm' = ground arith in
              rw (← q)
                (step (group_call filter group b cs c) cm (IsCandidate-taken filter cs i c g e) k)
        ]

    pub select_groups-keeps :
        {S : Type 0} (ctx : Context S) (this_id : IdData) (name filter : Bytes) (gs : Groups)
        (cm cm' : CollectorMap) (s s' : S)
        → AreGroups filter gs
        → K cm
        → select_groups ctx this_id name filter gs cm s ≡ ok (cm', s')
        → K cm'
    unfolding select_groups
    select_groups-keeps ctx this_id name filter [] cm cm' s s' g k h =
        let q : cm ≡ cm' = ground arith in rw (← q) k
    select_groups-keeps ctx this_id name filter ((group, cs) ∷ gs) cm cm' s s' g k h =
        let picked = ctx.choice group this_id name cs s in
        elim (Result-cases (deliver_chosen filter group cs picked.0 cm)) [
          | inr (e, q) ↦ (let h' = rw (select_groups, q) at h in absurd (ground arith))
          | inl (m, q) ↦
              select_groups-keeps ctx this_id name filter gs m cm' picked.1 s' g.1
                (deliver_chosen-keeps filter group cs picked.0 cm m g.0 k q)
                (rw (select_groups, q) at h)
        ]

    -- What every call keeps holds after the loop over the filters.
    pub visit_filters-keeps :
        {S : Type 0} (ctx : Context S) (this_id : IdData) (name : Bytes) (all : AllRelationsMap)
        (its : List (Item (Unit {0}))) (cm cm' : CollectorMap) (s s' : S)
        → ((it : Item (Unit {0}))
            → Memᴰ it its
            → AreDue this_id (to_string it.0) (or_empty (lookup (to_string it.0) all)))
        → K cm
        → visit_filters ctx this_id name all its cm s ≡ ok (cm', s')
        → K cm'
    unfolding visit_filters
    visit_filters-keeps ctx this_id name all [] cm cm' s s' d k h =
        let q : cm ≡ cm' = ground arith in rw (← q) k
    visit_filters-keeps ctx this_id name all ((levels, vs) ∷ its) cm cm' s s' d k h =
        let filter = to_string levels in
        let visited = visit_relations ctx this_id filter (or_empty (lookup filter all)) [] cm in
        let (g, k') =
          visit_relations-keeps ctx this_id filter (or_empty (lookup filter all)) [] cm
            (d (levels, vs) (Memᴰ.head refl)) tt k in
        elim (Result-cases (select_groups ctx this_id name filter visited.0 visited.1 s)) [
          | inr (e, q) ↦ (let h' = rw (visit_filters, q) at h in absurd (ground arith))
          | inl ((m, t), q) ↦
              visit_filters-keeps ctx this_id name all its m cm' t s' (λ it z. d it (Memᴰ.tail z))
                (select_groups-keeps ctx this_id name filter visited.0 visited.1 m s t g k' q)
                (rw (visit_filters, q) at h)
        ]
