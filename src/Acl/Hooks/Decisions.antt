-- ===== src/Acl/Hooks/Decisions.antt =====
-- How the hooks of oximqtt/src/builtins/acl.rs decide.
use oximqtt.Base.{
  ◌≡◌, refl, Bool, true, false, ◌⊎◌, inl, inr, arith, Option, none, some, List, [], ◌∷◌, Bool-cases,
}
use oximqtt.Base.Bytes.{Bytes}
use oximqtt.Types
use oximqtt.Acl.First.{Decides, Decides-step, DecidedBy, by_test}
use oximqtt.Acl.Auth.Applies.{IsAllowed, IsRejected}
use oximqtt.Acl.Hooks.Applies.{AppliesPublish, IsRefused, topic_hit_iff, is_refused_publish_iff}
use oximqtt.Acl.Auth.{ReturnType, HookResult, auth_result, not_authorized, Subscribe}
use oximqtt.Acl.{Access, allow, deny, Rule, Client}
use oximqtt.Acl.Hooks.{
  auth_hit, auth_answer, auth_loop, client_authenticate, is_refused_auth, topic_hit, for_subscribe,
  for_publish, refuse_subscribe, subscribe_answer, subscribe_loop, is_refused_subscribe,
  subscribe_check_acl, refuse_publish, publish_answer, publish_loop, is_refused_publish,
  publish_check_acl,
}

auth_loop-Decides :
    (c : Client) (rs : List Rule)
    → Decides
        (auth_hit c)
        (auth_answer c)
        (false, some (auth_result not_authorized))
        rs
        (auth_loop c rs)
unfolding auth_loop
auth_loop-Decides c [] = inr (tt, refl)
auth_loop-Decides c (r ∷ rs) =
    Decides-step (auth_hit c) (auth_answer c) (false, some (auth_result not_authorized)) r rs _
      (auth_loop-Decides c rs)

subscribe_loop-Decides :
    (c : Client) (s : Subscribe) (rs : List Rule)
    → Decides
        (topic_hit for_subscribe c s.topic_filter)
        (λ r. subscribe_answer s r.access)
        refuse_subscribe
        rs
        (subscribe_loop c s rs)
unfolding subscribe_loop
subscribe_loop-Decides c s [] = inr (tt, refl)
subscribe_loop-Decides c s (r ∷ rs) =
    Decides-step (topic_hit for_subscribe c s.topic_filter) (λ r. subscribe_answer s r.access)
      refuse_subscribe r rs _ (subscribe_loop-Decides c s rs)

publish_loop-Decides :
    (d : Bool) (c : Client) (topic : Bytes) (rs : List Rule)
    → Decides
        (topic_hit for_publish c topic)
        (λ r. publish_answer d r.access)
        (refuse_publish d)
        rs
        (publish_loop d c topic rs)
unfolding publish_loop
publish_loop-Decides d c topic [] = inr (tt, refl)
publish_loop-Decides d c topic (r ∷ rs) =
    Decides-step (topic_hit for_publish c topic) (λ r. publish_answer d r.access) (refuse_publish d)
      r rs _ (publish_loop-Decides d c topic rs)

-- A client that an earlier handler refused stays refused. Any other is let in or refused by the first
-- rule on connecting whose users are all the client, and refused where there is none.
pub client_authenticate-Decides :
    (c : Client) (rs : List Rule) (acc : Option HookResult)
    → ((is_refused_auth acc ≡ true) × (client_authenticate c rs acc ≡ (false, acc)))
      ⊎ ((is_refused_auth acc ≡ false)
          × Decides
              (auth_hit c)
              (auth_answer c)
              (false, some (auth_result not_authorized))
              rs
              (client_authenticate c rs acc))
unfolding client_authenticate
client_authenticate-Decides c rs acc = elim (Bool-cases (is_refused_auth acc)) [
  | inl h ↦ inl (h, rw (client_authenticate, h) refl)
  | inr h ↦ inr (h, rw (client_authenticate, h) (auth_loop-Decides c rs))
]

-- A subscription that an earlier handler refused stays refused. Any other is decided by the first
-- rule on subscribing whose users are all the client and whose topics match the filter, and refused
-- where there is none.
pub subscribe_check_acl-Decides :
    (c : Client) (s : Subscribe) (rs : List Rule) (acc : Option HookResult)
    → ((is_refused_subscribe acc ≡ true) × (subscribe_check_acl c s rs acc ≡ (false, acc)))
      ⊎ ((is_refused_subscribe acc ≡ false)
          × Decides
              (topic_hit for_subscribe c s.topic_filter)
              (λ r. subscribe_answer s r.access)
              refuse_subscribe
              rs
              (subscribe_check_acl c s rs acc))
unfolding subscribe_check_acl
subscribe_check_acl-Decides c s rs acc = elim (Bool-cases (is_refused_subscribe acc)) [
  | inl h ↦ inl (h, rw (subscribe_check_acl, h) refl)
  | inr h ↦ inr (h, rw (subscribe_check_acl, h) (subscribe_loop-Decides c s rs))
]

-- What a rule that applies answers, by its access.
abbrev pub IsAnswer : Bool → Rule → ReturnType → Type 0
IsAnswer disconnect r x =
    ((r.access ≡ allow) × IsAllowed x) ⊎ ((r.access ≡ deny) × IsRejected disconnect x)

publish_answer-IsAnswer : (d : Bool) (r : Rule) → IsAnswer d r (publish_answer d r.access)
publish_answer-IsAnswer d r = go r.access refl
  where
    go : (m : Access) → r.access ≡ m → IsAnswer d r (publish_answer d r.access)
    go allow e = inl (e, rw e (Types.allow, refl, refl, refl))
    go deny e = inr (e, rw e (Types.rejected d none, refl, refl, refl))

-- A message that an earlier handler refused stays refused. Any other is decided by the first rule
-- that is about publishing, whose users are all the client and whose topics cover the topic: it is
-- allowed or rejected as the rule says, and rejected where there is no such rule, with the
-- disconnection that is configured.
pub publish_check_acl-Decides :
    (d : Bool) (c : Client) (topic : Bytes) (rs : List Rule) (acc : Option HookResult)
    → (IsRefused acc × (publish_check_acl d c topic rs acc ≡ (false, acc)))
      ⊎ ((¬ IsRefused acc)
          × DecidedBy
              (AppliesPublish c topic)
              (IsAnswer d)
              (IsRejected d)
              rs
              (publish_check_acl d c topic rs acc))
unfolding publish_check_acl
publish_check_acl-Decides d c topic rs acc =
    let i = is_refused_publish_iff acc in
    elim (Bool-cases (is_refused_publish acc)) [
      | inl h ↦ inl (i.0 h, rw (publish_check_acl, h) refl)
      | inr h ↦ inr (
        λ k. absurd (let z = i.1 k in ground arith),
        rw (publish_check_acl, h)
            (by_test (AppliesPublish c topic) (IsAnswer d) (IsRejected d)
              (topic_hit for_publish c topic) (topic_hit_iff c topic)
              (λ r. publish_answer d r.access) (publish_answer-IsAnswer d) (refuse_publish d)
              (Types.rejected d none, refl, refl, refl) rs (publish_loop d c topic rs)
              (publish_loop-Decides d c topic rs)),
      )
    ]
