-- ===== src/Acl/Auth/Decisions.antt =====
-- How the rules of oximqtt/src/acl.rs decide.
use oximqtt.Base.{
  ◌≡◌, refl, Bool, true, false, ◌⊎◌, inl, inr, Option, none, some, List, [], ◌∷◌, Bool-cases,
}
use oximqtt.Codec.V3.{Publish}
use oximqtt.Types
use oximqtt.Acl.First.{Decides, Decides-step, DecidedBy, by_test}
use oximqtt.Acl.Auth.Applies.{IsAllowed, IsRejected, Applies, publish_rule_hit_iff}
use oximqtt.Acl.Auth.{
  Rule, AuthInfo, Subscribe, ReturnType, Permission, allow, deny, subscribe_hit, subscribe_answer,
  subscribe_loop, subscribe_acl, publish_rule_hit, publish_answer, publish_loop, publish_acl,
}

subscribe_loop-Decides :
    (s : Subscribe) (rules : List Rule)
    → Decides
        (subscribe_hit s)
        (λ r. some (subscribe_answer s r.permission))
        none
        rules
        (subscribe_loop s rules)
unfolding subscribe_loop
subscribe_loop-Decides s [] = inr (tt, refl)
subscribe_loop-Decides s (r ∷ rs) =
    Decides-step (subscribe_hit s) (λ r. some (subscribe_answer s r.permission)) none r rs
      (subscribe_loop s rs) (subscribe_loop-Decides s rs)

publish_loop-Decides :
    (p : Publish) (disconnect : Bool) (rules : List Rule)
    → Decides
        (publish_rule_hit p)
        (λ r. some (publish_answer disconnect r.permission))
        none
        rules
        (publish_loop p disconnect rules)
unfolding publish_loop
publish_loop-Decides p d [] = inr (tt, refl)
publish_loop-Decides p d (r ∷ rs) =
    Decides-step (publish_rule_hit p) (λ r. some (publish_answer d r.permission)) none r rs
      (publish_loop p d rs) (publish_loop-Decides p d rs)

-- A superuser may subscribe to every filter. Of another client the first rule that hits decides, by
-- its permission; where no rule hits, nothing is decided.
pub subscribe_acl-Decides :
    (s : Subscribe) (a : AuthInfo)
    → ((a.superuser ≡ true) × (subscribe_acl s a ≡ some (subscribe_answer s allow)))
      ⊎ ((a.superuser ≡ false)
          × Decides
              (subscribe_hit s)
              (λ r. some (subscribe_answer s r.permission))
              none
              a.rules
              (subscribe_acl s a))
unfolding subscribe_acl
subscribe_acl-Decides s a = elim (Bool-cases a.superuser) [
  | inl h ↦ inl (h, rw h refl)
  | inr h ↦ inr (h, rw h (subscribe_loop-Decides s a.rules))
]

-- What a rule that applies answers, by its permission.
abbrev pub IsAnswer : Bool → Rule → Option ReturnType → Type 0
IsAnswer disconnect r o =
    (x : ReturnType) × (o ≡ some x)
    × (((r.permission ≡ allow) × IsAllowed x) ⊎ ((r.permission ≡ deny) × IsRejected disconnect x))

publish_answer-IsAnswer :
    (disconnect : Bool) (r : Rule)
    → IsAnswer disconnect r (some (publish_answer disconnect r.permission))
publish_answer-IsAnswer d r = (publish_answer d r.permission, refl, go r.permission refl)
  where
    go :
        (m : Permission)
        → r.permission ≡ m
        → ((r.permission ≡ allow) × IsAllowed (publish_answer d r.permission))
          ⊎ ((r.permission ≡ deny) × IsRejected d (publish_answer d r.permission))
    go allow e = inl (e, rw e (Types.allow, refl, refl, refl))
    go deny e = inr (e, rw e (Types.rejected d none, refl, refl, refl))

-- A superuser may publish to every topic. Of another client the first rule decides that is about
-- publishing, takes the quality of service and the topic of the message, and fits whether it is
-- retained: it lets the message through if it allows, and rejects it as not authorized, with the
-- disconnection that is asked for, if it denies. Where no rule does, nothing is decided.
pub publish_acl-Decides :
    (p : Publish) (disconnect : Bool) (a : AuthInfo)
    → ((a.superuser ≡ true)
        × ((x : ReturnType) × (publish_acl p disconnect a ≡ some x) × IsAllowed x))
      ⊎ ((a.superuser ≡ false)
          × DecidedBy
              (Applies p)
              (IsAnswer disconnect)
              (λ o. o ≡ none)
              a.rules
              (publish_acl p disconnect a))
unfolding publish_acl
publish_acl-Decides p d a = elim (Bool-cases a.superuser) [
  | inl h ↦ inl (h, (publish_answer d allow, rw h refl, (Types.allow, refl, refl, refl)))
  | inr h ↦ inr (
    h,
    rw h (
        by_test (Applies p) (IsAnswer d) (λ o. o ≡ none) (publish_rule_hit p)
          (publish_rule_hit_iff p) (λ r. some (publish_answer d r.permission))
          (publish_answer-IsAnswer d) none refl a.rules (publish_loop p d a.rules)
          (publish_loop-Decides p d a.rules)),
  )
]
