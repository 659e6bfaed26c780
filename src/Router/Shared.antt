-- ===== src/Router/Shared.antt =====
-- The router of oximqtt/src/router.rs with the `DefaultSharedSubscription` of oximqtt/src/subscribe.rs.
use oximqtt.Base.{ℕ, ◌<◌, ◌≡◌, Bool, Option, some, List, [], ◌∷◌, map, ok, arith, length}
use oximqtt.Base.Bytes.{Bytes}
use oximqtt.Topic.{Topic, from_str}
use oximqtt.Subscription.{IdData}
use oximqtt.Subscription.Choice.{choice, choice-in_range}
use oximqtt.Router.{DefaultRouter}
use oximqtt.Router.Publish.{Candidate, Context, SubRelationsMap, matches}
use oximqtt.Router.Sound.{matches-total}

abbrev pub onlines : List Candidate → List (Option Bool)
onlines cs = map (λ c. c.online) cs

-- The context whose choice is the default one, which reads only who is online.
abbrev pub default_context : (ℕ → Bytes → Bool) → Context ℕ
default_context is_online = record {
  is_online = is_online;
  choice = λ group this_id name cs seq. choice (onlines cs) seq;
}

length-onlines : (cs : List Candidate) → length (onlines cs) ≡ length cs
length-onlines [] = omega arith
length-onlines (c ∷ cs) = omega (arith, length-onlines cs)

default_in_range :
    (cs : List Candidate) (seq i : ℕ) (b : Bool)
    → (choice (onlines cs) seq).0 ≡ some (i, b)
    → i < length cs
unfolding choice
default_in_range [] seq i b h = absurd (ground arith)
default_in_range (c ∷ cs) seq i b h =
    let (j, q, l) = choice-in_range c.online (onlines cs) seq in
    ground (arith, h, q, length-onlines cs)

-- With the default shared subscription `matches` gives a result for every topic that parses: the
-- removal of the chosen member from the group does not panic.
pub matches-answers :
    (is_online : ℕ → Bytes → Bool) (this_id : IdData) (name : Bytes) (t : Topic) (r : DefaultRouter)
    (seq : ℕ)
    → from_str name ≡ ok t
    → (m : SubRelationsMap) × (seq' : ℕ) × (matches (default_context is_online) this_id name r seq
        ≡ ok (m, seq'))
matches-answers is_online this_id name t r seq p =
    matches-total (default_context is_online) this_id name
      (λ group cs s i b h. default_in_range cs s i b h) t r seq p
