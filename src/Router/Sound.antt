-- ===== src/Router/Sound.antt =====
-- Whom `matches` of oximqtt/src/router.rs delivers to: only to subscribers of filters that match.
use oximqtt.Base.{
  Option, ◌↔◌, ◌⊎◌, ℕ, suc, ◌<◌, ◌≡◌, ◌≢◌, refl, Bool, true, false, none, some, List, [], ◌∷◌, ok,
  arith, length, Option-cases, Result-cases, inl, inr, zero,
}
use mathlib.Core.List.{Memᴰ}
use mathlib.Core.List.Memᴰ
use oximqtt.Base.OrdSet
use oximqtt.Base.Bytes.{Bytes}
use oximqtt.Base.Maps.{lookup, bytes_key, number_key, entry_iff}
use oximqtt.Topic.{Topic, from_str, to_string}
use oximqtt.Trie.Iter.{Item}
use oximqtt.Trie.Matching.{Reaches}
use oximqtt.Trie.Complete.{matches_iff}
use oximqtt.Trie.Paths.{values_at}
use oximqtt.Subscription.{
  no_local, id_eq, IdData, SubscriptionOptions, SubRelation, CollectorMap, collect, collector,
  relations_of,
}
use oximqtt.Subscription.Calls.{IsSound, collect-IsSound}
use oximqtt.Router.{DefaultRouter, or_empty, unit_ord}
use oximqtt.Router.Publish.{
  Context, Candidate, Groups, skips, taken, deliver_chosen, group_call, select_groups,
  visit_filters, visit_relations, SubRelationsMap, relations_map, matching, matches,
}
use oximqtt.Router.Keys.{IsValid, holds, inner-or_empty}
use oximqtt.Router.Updates.{relation}
use oximqtt.Router.Matches.{AreDue, visit_filters-keeps}

-- What a node delivers.
abbrev pub delivered : ℕ → SubRelationsMap → List SubRelation
delivered n m = elim (lookup n m) [ none ↦ [] | some rs ↦ rs ]

pub delivered-relations_map :
    (n : ℕ) (cm : CollectorMap) → delivered n (relations_map cm) ≡ relations_of (collector n cm)
unfolding relations_map lookup relations_of
delivered-relations_map n [] = refl
delivered-relations_map n ((k, c) ∷ cm) = ground (arith, delivered-relations_map n cm)

-- The client did not publish the message itself, or did not ask for no local messages.
abbrev pub IsWanted : IdData → IdData → SubscriptionOptions → Type 0
IsWanted this_id id opts = (no_local opts ≢ some true) ⊎ (id_eq this_id id ≡ false)

IsWanted-of :
    (this_id id : IdData) (opts : SubscriptionOptions) (o : Option Bool)
    → no_local opts ≡ o
    → (skips this_id id opts ≡ false) ↔ IsWanted this_id id opts
IsWanted-of this_id id opts none e = (λ h. inl (λ q. cc (q, e)), λ w. rw (skips, e) refl)
IsWanted-of this_id id opts (some false) e = (λ h. inl (λ q. cc (q, e)), λ w. rw (skips, e) refl)
IsWanted-of this_id id opts (some true) e =
    (λ h. inr (rw (skips, e) at h), λ w. elim w [ inl n ↦ absurd (n e) | inr d ↦ rw (skips, e) d ])

pub skips_iff :
    (this_id id : IdData) (opts : SubscriptionOptions)
    → (skips this_id id opts ≡ false) ↔ IsWanted this_id id opts
skips_iff this_id id opts = IsWanted-of this_id id opts (no_local opts) refl

-- A subscription that a publication is due to.
abbrev pub IsDue : IdData → Topic → DefaultRouter → ℕ → Bytes → Bytes → SubscriptionOptions → Type 0
IsDue this_id t r n f c opts =
    (id : IdData) × (u : Topic) × (relation f c r ≡ some (id, opts))
    × (id.node_id ≡ n)
    × IsWanted this_id id opts
    × (from_str f ≡ ok u)
    × Reaches true u t

holds_of_values : (xs : List (Unit {0})) → xs ≢ [] → OrdSet.contains tt xs ≡ true
unfolding OrdSet.contains
holds_of_values [] h = absurd (h refl)
holds_of_values (x ∷ xs) h = refl

-- What ran where `matches` gives a result.
pub matches_inv :
    {S : Type 0} (ctx : Context S) (this_id : IdData) (name : Bytes) (t : Topic) (r : DefaultRouter)
    (m : SubRelationsMap) (s s' : S)
    → from_str name ≡ ok t
    → matches ctx this_id name r s ≡ ok (m, s')
    → (cm : CollectorMap) × (m ≡ relations_map cm)
      × (visit_filters ctx this_id name r.relations (matching r t) [] s ≡ ok (cm, s'))
unfolding matches
matches_inv ctx this_id name t r m s s' p h =
    elim (Result-cases (visit_filters ctx this_id name r.relations (matching r t) [] s)) [
      | inl ((cm, s₁), q) ↦ (cm, ground (arith, p, q), ground (arith, p, q))
      | inr (e, q) ↦ absurd (ground (arith, p, q))
    ]

-- The filters that the walk yields have the relations that are due.
matching-AreDue :
    (this_id : IdData) (t : Topic) (r : DefaultRouter)
    → IsValid r
    → (it : Item (Unit {0})) → Memᴰ it (matching r t)
    → AreDue
        (IsDue this_id t r)
        this_id
        (to_string it.0)
        (or_empty (lookup (to_string it.0) r.relations))
unfolding matching
matching-AreDue this_id t r v (u, vs) m c id opts e b =
    let (p, q, w) = (matches_iff r.topics t u vs).0 m in
    let h : holds u r.topics ≡ true = holds_of_values (values_at u r.topics) (rw p at q) in
    let rels = or_empty (lookup (to_string u) r.relations) in
    let l = (entry_iff c (id, opts) rels (inner-or_empty r (to_string u) v)).0 e in
    (id, u, l, refl, (skips_iff this_id id opts).0 b, v.printed u h, w)

-- Every relation that a node delivers is a subscription of a client of that node, with the options
-- it was made with, to a filter that matches the topic, and not one that `no_local` keeps from what
-- the client itself published.
pub matches-IsDue :
    {S : Type 0} (ctx : Context S) (this_id : IdData) (name : Bytes) (t : Topic) (r : DefaultRouter)
    (m : SubRelationsMap) (s s' : S) (n : ℕ) (x : SubRelation)
    → IsValid r
    → from_str name ≡ ok t
    → matches ctx this_id name r s ≡ ok (m, s')
    → Memᴰ x (delivered n m)
    → IsDue this_id t r n x.topic_filter x.client_id x.opts
unfolding lookup relations_of
matches-IsDue ctx this_id name t r m s s' n x v p h z =
    let (cm, q, w) = matches_inv ctx this_id name t r m s s' p h in
    let P = IsDue this_id t r in
    let sound : IsSound P cm =
      visit_filters-keeps P (IsSound P) (collect-IsSound P) ctx this_id name r.relations
        (matching r t) [] cm s s' (matching-AreDue this_id t r v) (λ k y u. absurd (Memᴰ.not-nil u))
        w in
    sound n x (rw (q, delivered-relations_map n cm) at z)

module _ {S : Type 0} (ctx : Context S) (this_id : IdData) (name : Bytes)
    (in_range : (group : Bytes) (cs : List Candidate) (s : S) (i : ℕ) (b : Bool)
      → (ctx.choice group this_id name cs s).0 ≡ some (i, b)
      → i < length cs) where
  taken-in_range :
      {A : Type 0} (xs : List A) (i : ℕ) → i < length xs → (x : A) × (taken xs i ≡ some x)
  taken-in_range [] i h = absurd (omega arith)
  taken-in_range (x ∷ xs) zero h = (x, refl)
  taken-in_range (x ∷ xs) (suc i) h = taken-in_range xs i (omega arith)

  deliver_chosen-total :
      (filter group : Bytes) (cs : List Candidate) (cm : CollectorMap) (s : S)
      → (cm' : CollectorMap) × (deliver_chosen filter group cs
            (ctx.choice group this_id name cs s).0
            cm
          ≡ ok cm')
  deliver_chosen-total filter group cs cm s =
      elim (Option-cases (ctx.choice group this_id name cs s).0) [
        | inl e ↦ (cm, rw e refl)
        | inr ((i, b), e) ↦
            let (c, q) = taken-in_range cs i (in_range group cs s i b e) in
            (collect (group_call filter group b cs c) cm, rw (e, deliver_chosen, q) refl)
      ]

  select_groups-total :
      (filter : Bytes) (gs : Groups) (cm : CollectorMap) (s : S)
      → (cm' : CollectorMap) × (s' : S) × (select_groups ctx this_id name filter gs cm s
          ≡ ok (cm', s'))
  unfolding select_groups
  select_groups-total filter [] cm s = (cm, s, refl)
  select_groups-total filter ((group, cs) ∷ gs) cm s =
      let (cm₁, q) = deliver_chosen-total filter group cs cm s in
      rw (select_groups, q)
        (select_groups-total filter gs cm₁ (ctx.choice group this_id name cs s).1)

  visit_filters-total :
      (r : DefaultRouter) (its : List (Item (Unit {0}))) (cm : CollectorMap) (s : S)
      → (cm' : CollectorMap) × (s' : S) × (visit_filters ctx this_id name r.relations its cm s
          ≡ ok (cm', s'))
  unfolding visit_filters
  visit_filters-total r [] cm s = (cm, s, refl)
  visit_filters-total r ((levels, vs) ∷ its) cm s =
      let filter = to_string levels in
      let visited =
        visit_relations ctx this_id filter (or_empty (lookup filter r.relations)) [] cm in
      let (cm₁, s₁, q) = select_groups-total filter visited.0 visited.1 s in
      rw (visit_filters, q) (visit_filters-total r its cm₁ s₁)

  -- If the choice among the members of a group is in range, `matches` gives a result for every topic
  -- that parses.
  pub matches-total :
      (t : Topic) (r : DefaultRouter) (s : S)
      → from_str name ≡ ok t
      → (m : SubRelationsMap) × (s' : S) × (matches ctx this_id name r s ≡ ok (m, s'))
  unfolding matches
  matches-total t r s p =
      let (cm, s', q) = visit_filters-total r (matching r t) [] s in
      (relations_map cm, s', rw (matches, p, q) refl)
