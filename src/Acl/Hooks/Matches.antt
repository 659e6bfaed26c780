-- ===== src/Acl/Hooks/Matches.antt =====
-- Which topics a rule of oximqtt/src/builtins/acl.rs covers.
use oximqtt.Base.{
  ◌≡◌, refl, ◌⊎◌, inl, inr, ◌↔◌, true, Option, none, some, List, [], ◌∷◌, arith, Bool-cases, subst,
}
use mathlib.Core.List.{Memᴰ}
use mathlib.Core.List.Memᴰ
use oximqtt.Base.Bytes.{Bytes, bytes_eq, bytes_eq_iff}
use oximqtt.Topic.{Topic}
use oximqtt.Trie.{Node}
use oximqtt.Trie.Iter.{Item}
use oximqtt.Trie.Matching.{Reaches}
use oximqtt.Trie.Complete.{matches_iff}
use oximqtt.Trie.Paths.{values_at}
use oximqtt.Acl.{Topics, matched, has_text, values_match, items_match, is_match}

-- A value that stands for every client, or for this one.
abbrev pub IsFor : Bytes → Option Bytes → Type 0
IsFor client v = (v ≡ none) ⊎ (v ≡ some client)

-- A filter of the tree that matches the topic, with a value for the client.
abbrev pub Covers : Node (Option Bytes) → Topic → Bytes → Type 0
Covers tree t client =
    (f : Topic) × (v : Option Bytes) × Memᴰ v (values_at f tree) × IsFor client v × Reaches true f t

values_match_sound :
    (client : Bytes) (vs : List (Option Bytes))
    → values_match client vs ≡ true
    → (v : Option Bytes) × Memᴰ v vs × IsFor client v
unfolding values_match
values_match_sound client [] h = cc
values_match_sound client (none ∷ vs) h = (none, Memᴰ.head refl, inl refl)
values_match_sound client (some cid ∷ vs) h = elim (Bool-cases (bytes_eq cid client)) [
  | inl b ↦ (some cid, Memᴰ.head refl, inr (let e = (bytes_eq_iff cid client).0 b in cc))
  | inr b ↦ let (v, m, i) = values_match_sound client vs (ground arith) in (v, Memᴰ.tail m, i)
]

values_match_complete :
    (client : Bytes) (vs : List (Option Bytes)) (v : Option Bytes)
    → Memᴰ v vs
    → IsFor client v
    → values_match client vs ≡ true
unfolding values_match
values_match_complete client [] v m i = absurd (Memᴰ.not-nil m)
values_match_complete client (none ∷ vs) v m i = refl
values_match_complete client (some cid ∷ vs) v (Memᴰ.head e) i =
    ground (arith, bytes_eq_iff cid client)
values_match_complete client (some cid ∷ vs) v (Memᴰ.tail m) i =
    ground (arith, values_match_complete client vs v m i)

items_match_sound :
    (client : Bytes) (is : List (Item (Option Bytes)))
    → items_match client is ≡ true
    → (it : Item (Option Bytes)) × Memᴰ it is × (values_match client it.1 ≡ true)
unfolding items_match
items_match_sound client [] h = cc
items_match_sound client ((f, vs) ∷ is) h = elim (Bool-cases (values_match client vs)) [
  | inl b ↦ ((f, vs), Memᴰ.head refl, b)
  | inr b ↦ let (it, m, q) = items_match_sound client is (ground arith) in (it, Memᴰ.tail m, q)
]

items_match_complete :
    (client : Bytes) (is : List (Item (Option Bytes))) (it : Item (Option Bytes))
    → Memᴰ it is
    → values_match client it.1 ≡ true
    → items_match client is ≡ true
unfolding items_match
items_match_complete client [] it m q = absurd (Memᴰ.not-nil m)
items_match_complete client ((f, vs) ∷ is) it (Memᴰ.head e) q = ground arith
items_match_complete client ((f, vs) ∷ is) it (Memᴰ.tail m) q =
    ground (arith, items_match_complete client is it m q)

-- The walk over the tree finds a value for the client exactly if a filter with one matches.
tree_iff :
    (tree : Node (Option Bytes)) (t : Topic) (client : Bytes)
    → (items_match client (matched tree t) ≡ true) ↔ Covers tree t client
unfolding matched
tree_iff tree t client = (
  λ h.
      let ((f, vs), m, q) = items_match_sound client (matched tree t) h in
      let (e, _, r) = (matches_iff tree t f vs).0 m in
      let (v, n, i) = values_match_sound client vs q in (f, v, subst (λ z. Memᴰ v z) e n, i, r),
  λ (f, v, m, i, r).
      let vs = values_at f tree in
      let k = (matches_iff tree t f vs).1 (refl, λ z. Memᴰ.not-nil (rw z at m), r) in
      items_match_complete client (matched tree t) (f, vs) k
        (values_match_complete client vs v m i),
)

-- The topics of a rule cover a topic for a client exactly if they are all topics, if the text is one
-- of the exact ones, or if one of their filters matches the topic and stands for every client or for
-- this one.
pub is_match_iff :
    (t : Topic) (text client : Bytes) (ts : Topics)
    → (is_match t text client ts ≡ true)
      ↔ ((ts.all ≡ true) ⊎ ((has_text text ts.eqs ≡ true) ⊎ Covers ts.tree t client))
unfolding is_match
is_match_iff t text client ts =
    let i = tree_iff ts.tree t client in
    elim (Bool-cases ts.all) [
      | inl a ↦ (λ h. inl a, λ h. rw (is_match, a) refl)
      | inr a ↦ elim (Bool-cases (has_text text ts.eqs)) [
        | inl b ↦ (λ h. inr (inl b), λ h. rw (is_match, a, b) refl)
        | inr b ↦ (
          λ h. inr (inr (i.0 (rw (is_match, a, b) at h))),
          λ h.
              rw (is_match, a, b)
                (i.1 (elim h [ inl a' ↦ cc | inr h' ↦ elim h' [ inl b' ↦ cc | inr c ↦ c ] ])),
        )
      ]
    ]
