-- ===== src/Retain/Storage/Expiry.antt =====
-- `remove_expired_messages` of oximqtt/src/retain.rs: what it takes from the tree.
use oximqtt.Base.{
  ℕ, ◌+◌, ◌<◌, ◌^◌, ◌≡◌, refl, sym, ap, ◌∙◌, false, leb, Option, none, some, [], ◌∷◌, arith,
  if◌then◌else◌, inl, inr, Bool-cases, subst,
}
use oximqtt.Counter.{Counter}
use oximqtt.Counter.Bounds.{Shows}
use oximqtt.Topic.{Level, Topic}
use oximqtt.Retain.{
  Node, Branches, node, entry, value, branches, get, is_bare, values_size, values_size_branches,
  retain_value, retain_from, retain_branches,
}
use oximqtt.Retain.Paths.{value_at}
use oximqtt.Retain.Trees.{IsTree, AreTrees, node_induction}
use oximqtt.Retain.Storage.{DefaultRetainStorage, is_expired, keeps, remove_expired_messages}
use oximqtt.Retain.Storage.Sizes.{weight}
use oximqtt.Topic.{from_str, to_string}
use oximqtt.Base.{ok}
use oximqtt.Retain.Storage.Messages.{IsValid}
use oximqtt.Retain.Storage.Pruned.{
  Message, kept, under, limit, Pruned, value_lem, value-Shows, entry-Pruned, left, child,
}

abbrev of_node : ℕ → Node Message → Counter → ℕ → Node Message × (Counter × ℕ)
of_node now n s r = retain_from (keeps now) limit n (s, r)

abbrev of_branches : ℕ → Branches Message → Counter → ℕ → Branches Message × (Counter × ℕ)
of_branches now bs s r = retain_branches (keeps now) limit bs (s, r)

abbrev NodeClaim : ℕ → Node Message → Type 0
NodeClaim now n =
    IsTree n
    → (s : Counter) (r : ℕ) → r + values_size n < limit
    → (value (of_node now n s r).0 ≡ value n)
      × Pruned now (branches n) s r (branches (of_node now n s r).0) (of_node now n s r).1.0
          (of_node now n s r).1.1

abbrev BranchesClaim : ℕ → Branches Message → Type 0
BranchesClaim now bs =
    AreTrees bs
    → (s : Counter) (r : ℕ) → r + values_size_branches bs < limit
    → Pruned now bs s r (of_branches now bs s r).0 (of_branches now bs s r).1.0
        (of_branches now bs s r).1.1

of_node_lem :
    (now : ℕ) (v : Option Message) (bs : Branches Message) (s : Counter) (r : ℕ)
    → leb limit r ≡ false
    → of_node now (node v bs) s r ≡ (node v (of_branches now bs s r).0, (of_branches now bs s r).1)
unfolding retain_from
of_node_lem now v bs s r b = ground (arith, b)

node_case :
    (now : ℕ) (v : Option Message) (bs : Branches Message)
    → BranchesClaim now bs
    → NodeClaim now (node v bs)
unfolding values_size IsTree
node_case now v bs ih h s r room =
    let q = of_node_lem now v bs s r (ground arith) in
    subst (λ x. (value x.0 ≡ v) × Pruned now bs s r (branches x.0) x.1.0 x.1.1) (sym q)
      (refl, ih h s r (omega arith))

entry_case :
    (now : ℕ) (k : Level) (n : Node Message) (bs : Branches Message)
    → NodeClaim now n
    → BranchesClaim now bs
    → BranchesClaim now (entry k n bs)
unfolding retain_branches values_size values_size_branches AreTrees left child
entry_case now k (node v bn) bs ih₁ ih₂ (p, d, t, h) s r room =
    let o = of_node now (node v bn) s r in
    let (q, c) = ih₁ t s r (omega arith) in
    let w = retain_value (keeps now) limit (value o.0) o.1 in
    let a : w.0 ≡ kept now v = (value_lem now (value o.0) o.1.0 o.1.1).0 ∙ ap (kept now) q in
    let counted : w.1.1 + weight (kept now v) ≡ o.1.1 + weight v =
      subst (λ x. w.1.1 + weight (kept now x) ≡ o.1.1 + weight x) q
        (value_lem now (value o.0) o.1.0 o.1.1).1 in
    let shown : (m : ℕ) → Shows o.1.0 (m + weight v) → Shows w.1.0 (m + weight (kept now v)) =
      λ m y.
        subst (λ x. Shows w.1.0 (m + weight (kept now x))) q
          (value-Shows now (value o.0) o.1.0 o.1.1 m
            (subst (λ x. Shows o.1.0 (m + weight x)) (sym q) y)) in
    let out = of_branches now bs w.1.0 w.1.1 in
    let others = ih₂ h w.1.0 w.1.1 (omega (arith, c.count, counted, room)) in
    subst
      (λ x.
        Pruned now (entry k (node v bn) bs) s r
          (if is_bare (node x (branches o.0)) then out.0 else entry k (node x (branches o.0)) out.0)
          out.1.0 out.1.1)
      (sym a)
      (entry-Pruned now k v bn (branches o.0) bs out.0 s o.1.0 w.1.0 out.1.0 r o.1.1 w.1.1 out.1.1 c
        counted shown others d p)

-- The walk over a tree, before which `r` values were removed.
expiry : (now : ℕ) (n : Node Message) → NodeClaim now n
unfolding retain_branches values_size_branches AreTrees get
expiry now =
    node_induction (NodeClaim now) (BranchesClaim now) (λ v bs ih. node_case now v bs ih)
      (λ h s r room. record {
        trees = tt;
        count = refl;
        below = λ k t. refl;
        gone = λ k e. e;
        shows = λ m e. e;
      })
      (λ k n bs ih₁ ih₂. entry_case now k n bs ih₁ ih₂)

value_at_of :
    (n : Node Message) (l : Level) (t : Topic) → value_at (l ∷ t) n ≡ under l t (branches n)
unfolding value_at
value_at_of (node v bs) l t = refl

size_of : (n : Node Message) → values_size n ≡ values_size_branches (branches n) + weight (value n)
unfolding values_size
size_of (node v bs) = refl

tree_of : (n : Node Message) → AreTrees (branches n) → IsTree n
unfolding IsTree
tree_of (node v bs) h = h

kept-some : (now : ℕ) (v : Option Message) (tv : Message) → kept now v ≡ some tv → v ≡ some tv
kept-some now none tv h = h
kept-some now (some x) tv h = elim (Bool-cases (is_expired now x)) [
  | inl b ↦ absurd (ground arith)
  | inr b ↦ ground arith
]

printed_of :
    (now : ℕ) (n n' : Node Message)
    → ((t : Topic) (v : Message) → value_at t n ≡ some v → from_str (to_string t) ≡ ok t)
    → value n' ≡ value n
    → ((l : Level) (t : Topic) → value_at (l ∷ t) n' ≡ kept now (value_at (l ∷ t) n))
    → (t : Topic) (v : Message) → value_at t n' ≡ some v
    → from_str (to_string t) ≡ ok t
unfolding value_at
printed_of now n n' printed q same [] v h = printed [] v (sym q ∙ h)
printed_of now n n' printed q same (l ∷ t) v h =
    printed (l ∷ t) v (kept-some now (value_at (l ∷ t) n) v (sym (same l t) ∙ h))

-- With fewer messages than the counter can show, `remove_expired_messages` takes exactly the messages
-- that have expired, gives their number, and keeps the storage valid, the counter with it.
pub remove_expired_messages-IsValid :
    (now : ℕ) (st : DefaultRetainStorage) (l : Level) (t : Topic)
    → IsValid st
    → values_size st.messages < 2 ^ 63
    → (value_at (l ∷ t) (remove_expired_messages now st).0.messages
        ≡ kept now (value_at (l ∷ t) st.messages))
      × ((remove_expired_messages now st).1
            + values_size (remove_expired_messages now st).0.messages
          ≡ values_size st.messages)
      × IsValid (remove_expired_messages now st).0
unfolding remove_expired_messages value_at IsTree
remove_expired_messages-IsValid now st l t v room =
    let o = of_node now st.messages st.retaineds 0 in
    let (q, p) = expiry now st.messages v.tree st.retaineds 0 (omega arith) in
    let same : (l : Level) (t : Topic)
        → value_at (l ∷ t) o.0 ≡ kept now (value_at (l ∷ t) st.messages) =
      λ l t.
        value_at_of o.0 l t ∙ p.below l t ∙ ap (kept now) (sym (value_at_of st.messages l t)) in
    let shown =
      p.shows (weight (value st.messages))
        (subst (Shows st.retaineds) (size_of st.messages ∙ omega arith) v.counted) in
    (
      same l t,
      omega (arith, size_of o.0, size_of st.messages, p.count, ap weight q),
      record {
        tree = tree_of o.0 p.trees;
        printed = printed_of now st.messages o.0 v.printed q same;
        counted = subst (Shows o.1.0) (omega (arith, size_of o.0, ap weight q)) shown;
      },
    )
