-- ===== src/Router/Runs.antt =====
-- Sequences of `add` and `remove` on the router of oximqtt/src/router.rs, against the plain function
-- from filters and clients to subscriptions.
use oximqtt.Base.{
  ◌≤◌, ◌<◌, ◌^◌, ◌≡◌, refl, ◌∙◌, Bool, true, false, ◌&&◌, Option, none, some, List, [], ◌∷◌, ok,
  err, arith, if◌then◌else◌, length, Result-cases, inl, inr,
}
use oximqtt.Base.Bytes.{Bytes, bytes_eq, bytes_eq_iff}
use oximqtt.Base.Maps.{lookup, has_key, IsMap, bytes_key}
use oximqtt.Topic.{Topic, from_str}
use oximqtt.Trie.Paths.{values_at}
use oximqtt.Trie
use oximqtt.Base.OrdSet
use oximqtt.Subscription.{IdData, id_eq, SubscriptionOptions}
use oximqtt.Router.{DefaultRouter, new, add, remove, unit_ord}
use oximqtt.Router.Keys.{IsValid, add-IsValid, remove-IsValid}
use oximqtt.Router.Updates.{relation, relation-add, relation-remove}
use oximqtt.Router.Counts.{
  IsCounted, size, add-sizes, remove-sizes, add-IsCounted, remove-IsCounted,
}

pub data Request : Type 0 where
  adds : Bytes → IdData → SubscriptionOptions → Request
  removes : Bytes → IdData → Request

-- A request that fails leaves the router as it is left.
unfoldable pub step : Request → DefaultRouter → DefaultRouter
step (adds f id opts) r = elim (add f id opts r) [ ok r' ↦ r' | err e ↦ r ]
step (removes f id) r = (remove f id r).1

-- The requests, the last one first.
unfoldable pub run : List Request → DefaultRouter
run [] = new
run (q ∷ qs) = step q (run qs)

-- What the requests mean: who is subscribed to what.
abbrev pub Subscriptions : Type 0
Subscriptions = Bytes → Bytes → Option (IdData × SubscriptionOptions)

abbrev pub parses : Bytes → Bool
parses f = elim (from_str f) [ ok t ↦ true | err e ↦ false ]

abbrev pub is_owner : IdData → Option (IdData × SubscriptionOptions) → Bool
is_owner id none = false
is_owner id (some old) = id_eq old.0 id

unfoldable pub meaning : List Request → Subscriptions
meaning [] g c = none
meaning (adds f id opts ∷ qs) g c =
    let before = meaning qs g c in
    if parses f && (bytes_eq f g && bytes_eq id.client_id c) then some (id, opts) else before
meaning (removes f id ∷ qs) g c =
    let before = meaning qs g c in
    if bytes_eq f g && (bytes_eq id.client_id c && is_owner id before) then none else before

pub new-IsValid : IsValid new
unfolding has_key values_at IsMap lookup Trie.get OrdSet.contains
new-IsValid = record {
  keys = λ f t p. empty_tree t;
  printed = λ t h. absurd (let q = empty_tree t in ground (arith, q));
  parsed = λ f h. absurd (ground arith);
  outer = tt;
  inner = λ f m h. absurd (ground arith);
}
  where
    empty_tree : (t : Topic) → false ≡ OrdSet.contains tt (values_at t new.topics)
    empty_tree [] = refl
    empty_tree (l ∷ t) = refl

-- Whatever requests the router served, it is valid.
pub run-IsValid : (qs : List Request) → IsValid (run qs)
unfolding run step
run-IsValid [] = new-IsValid
run-IsValid (adds f id opts ∷ qs) = elim (Result-cases (add f id opts (run qs))) [
  | inl (r', e) ↦ rw (run, step, e) (add-IsValid f id opts (run qs) r' (run-IsValid qs) e)
  | inr (x, e) ↦ rw (run, step, e) (run-IsValid qs)
]
run-IsValid (removes f id ∷ qs) = remove-IsValid f id (run qs) (run-IsValid qs)

add-parses :
    (f : Bytes) (id : IdData) (opts : SubscriptionOptions) (r : DefaultRouter)
    → parses f ≡ (elim (add f id opts r) [ ok r' ↦ true | err e ↦ false ])
unfolding add
add-parses f id opts r = ground arith

-- Whatever requests the router served, a client has the subscription to a filter that the requests
-- mean: the last one it added to a filter that parses, unless its session removed it since.
pub run-meaning : (qs : List Request) (g c : Bytes) → relation g c (run qs) ≡ meaning qs g c
unfolding run step meaning lookup
run-meaning [] g c = refl
run-meaning (adds f id opts ∷ qs) g c =
    let ih = run-meaning qs g c in
    let p = add-parses f id opts (run qs) in
    elim (Result-cases (add f id opts (run qs))) [
      | inl (r', e) ↦
          let q = relation-add f g c id opts (run qs) r' e in
          rw (run, step, e) (q ∙ ground (arith, ih, p, e))
      | inr (x, e) ↦ rw (run, step, e) (ih ∙ ground (arith, p, e))
    ]
run-meaning (removes f id ∷ qs) g c =
    let (a, q) = relation-remove f g c id (run qs) (run-IsValid qs) in
    q
    ∙ ground (
      arith,
      run-meaning qs g c,
      run-meaning qs f id.client_id,
      bytes_eq_iff f g,
      bytes_eq_iff id.client_id c,
    )

IsCounted-new : IsCounted new
unfolding size
IsCounted-new = ground arith

-- The counters show how many filters and how many relations there are, and those are no more than
-- the requests.
pub run-IsCounted :
    (qs : List Request)
    → length qs < 2 ^ 63
    → IsCounted (run qs)
      × (length (run qs).relations ≤ length qs)
      × (size (run qs).relations ≤ length qs)
unfolding run step
run-IsCounted [] h = (IsCounted-new, unfold run in omega arith, unfold run size in ground arith)
run-IsCounted (adds f id opts ∷ qs) h =
    let (k, a, b) = run-IsCounted qs (omega arith) in
    elim (Result-cases (add f id opts (run qs))) [
      | inl (r', e) ↦
          let (u, v) = add-sizes f id opts (run qs) r' e in
          rw (run, step, e)
            (
              add-IsCounted f id opts (run qs) r' k (omega (arith, a)) (omega (arith, b)) e,
              omega (arith, a, u),
              omega (arith, b, v),
            )
      | inr (x, e) ↦ rw (run, step, e) (k, omega (arith, a), omega (arith, b))
    ]
run-IsCounted (removes f id ∷ qs) h =
    let (k, a, b) = run-IsCounted qs (omega arith) in
    let (u, v) = remove-sizes f id (run qs) (run-IsValid qs) in
    (remove-IsCounted f id (run qs) (run-IsValid qs) k, omega (arith, a, u), omega (arith, b, v))
