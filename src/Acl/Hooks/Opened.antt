-- ===== src/Acl/Hooks/Opened.antt =====
-- What a client may reach by the rules of oximqtt/src/builtins/acl.rs that are made for it.
use oximqtt.Base.{
  ◌≡◌, refl, true, ◌||◌, Option, some, List, [], ◌∷◌, ok, arith, inl, inr, Result-cases, Bool-cases,
}
use mathlib.Core.List.{Memᴰ}
use mathlib.Core.List.Memᴰ
use oximqtt.Base.OrdSet
use oximqtt.Base.OrdSet.{Ord, contains-insert}
use oximqtt.Base.Bytes.{Bytes}
use oximqtt.Topic.{Topic, from_str}
use oximqtt.Trie
use oximqtt.Trie.Matching.{Reaches}
use oximqtt.Trie.Paths.{values_at, values_at-insert, path_eq}
use oximqtt.Acl.{Topics, Client, client_order, client_eq, client_eq_iff, is_match}
use oximqtt.Acl.Hooks.{expand, add_topic_filter, build_filters, or_same}
use oximqtt.Acl.Hooks.Removed.{holds, path_eq_self}
use oximqtt.Acl.Hooks.Matches.{is_match_iff}

Memᴰ-contains :
    (v : Option Bytes) (vs : List (Option Bytes)) → OrdSet.contains v vs ≡ true → Memᴰ v vs
unfolding OrdSet.contains
Memᴰ-contains v [] h = cc
Memᴰ-contains v (w ∷ vs) h = elim (Bool-cases (client_eq v w)) [
  | inl b ↦ Memᴰ.head ((client_eq_iff v w).0 b)
  | inr b ↦ Memᴰ.tail (Memᴰ-contains v vs (ground arith))
]

holds-insert :
    (client : Bytes) (f g : Topic) (t : Topics)
    → holds (some client) g (Trie.insert f (some client) t.tree).0
      ≡ (path_eq f g || holds (some client) g t.tree)
holds-insert client f g t =
    let e = values_at-insert f g (some client) t.tree in
    let c = contains-insert (some client) (some client) (values_at g t.tree) in
    ground (arith, client_eq_iff (some client) (some client))

-- One filter of a client more.
module _ (client text : Bytes) (t : Topics) where
  abbrev with_filter : Topics
  with_filter = or_same (add_topic_filter text client t) t

  add_topic_filter-keeps :
      (g : Topic)
      → holds (some client) g t.tree ≡ true
      → holds (some client) g with_filter.tree ≡ true
  unfolding add_topic_filter
  add_topic_filter-keeps g h = elim (Result-cases (from_str text)) [
    | inr (z, e) ↦ rw (add_topic_filter, e) h
    | inl (f, e) ↦ rw (add_topic_filter, e) (let i = holds-insert client f g t in ground arith)
  ]

  add_topic_filter-holds :
      (f : Topic) → from_str text ≡ ok f → holds (some client) f with_filter.tree ≡ true
  unfolding add_topic_filter
  add_topic_filter-holds f e =
      rw (add_topic_filter, e) (let i = holds-insert client f f t in ground (arith, path_eq_self f))

build_filters-keeps :
    (c : Client) (phs : List Bytes) (t : Topics) (g : Topic)
    → holds (some c.client_id) g t.tree ≡ true
    → holds (some c.client_id) g (build_filters c phs t).0.tree ≡ true
unfolding build_filters
build_filters-keeps c [] t g h = h
build_filters-keeps c (ph ∷ phs) t g h =
    build_filters-keeps c phs _ g (add_topic_filter-keeps c.client_id (expand c ph) t g h)

build_filters-holds :
    (c : Client) (phs : List Bytes) (t : Topics) (ph : Bytes) (f : Topic)
    → Memᴰ ph phs
    → from_str (expand c ph) ≡ ok f
    → holds (some c.client_id) f (build_filters c phs t).0.tree ≡ true
unfolding build_filters
build_filters-holds c [] t ph f m e = absurd (Memᴰ.not-nil m)
build_filters-holds c (p ∷ phs) t ph f (Memᴰ.head q) e =
    build_filters-keeps c phs _ f (add_topic_filter-holds c.client_id (expand c p) t f (rw q at e))
build_filters-holds c (p ∷ phs) t ph f (Memᴰ.tail m) e = build_filters-holds c phs _ ph f m e

-- When a client has come, each placeholder of a rule covers for it the topics that match the filter
-- which the placeholder makes with its names.
pub build_filters-covers :
    (c : Client) (phs : List Bytes) (ts : Topics) (ph text : Bytes) (f t : Topic)
    → Memᴰ ph phs
    → from_str (expand c ph) ≡ ok f
    → Reaches true f t
    → is_match t text c.client_id (build_filters c phs ts).0 ≡ true
build_filters-covers c phs ts ph text f t m e r =
    let h = build_filters-holds c phs ts ph f m e in
    let tree = (build_filters c phs ts).0.tree in
    (is_match_iff t text c.client_id (build_filters c phs ts).0).1
      (inr (inr (f, some c.client_id, Memᴰ-contains _ (values_at f tree) h, inr refl, r)))
