-- ===== src/Acl/Auth.antt =====
-- oximqtt/src/acl.rs: the access rules that a client brings along with its authentication.
-- The clock is an argument. The types of the configuration are those of `serde_json`, and a rule is
-- taken here from its parts on.
pub mod Applies
pub mod Decisions
use oximqtt.Base.{
  ℕ, Bool, true, false, not, ◌&&◌, Option, none, some, List, [], ◌∷◌, if◌then◌else◌, ltb, ◌==◌,
  Result, ok, err, ◌>>=◌,
}
use oximqtt.Base.Bytes.{Bytes, bytes_eq, codes}
use oximqtt.Codec.Qos.{QoS, qos_value}
use oximqtt.Codec.V3.{Publish}
use oximqtt.Topic
use oximqtt.Topic.{TopicError, from_str}
use oximqtt.Topic.Match.{matches_str}
use oximqtt.Subscription.{SubscriptionOptions}
use oximqtt.Subscription
use oximqtt.Types.{
  PublishAclResult, SubscribeReturn, SubscribeAckReason, new_success, new_failure, rejected,
}
use oximqtt.Types
use oximqtt.Acl.Texts.{strip_prefix, has_text, replace}

pub data Permission : Type 0 where
  allow deny : Permission

pub data Action : Type 0 where
  all publish subscribe : Action

-- `Topic`
pub record RuleTopic : Type 0 where
  pub eq_topic_filter : Option Bytes
  pub topic_filter : Option Topic.Topic

pub record Rule : Type 0 where
  pub permission : Permission
  pub action : Action
  pub qos : Option (List QoS)
  pub retain : Option Bool
  pub topic : RuleTopic

-- `expire_at` in the unit of the clock.
pub record AuthInfo : Type 0 where
  pub superuser : Bool
  pub expire_at : Option ℕ
  pub rules : List Rule

pub record Subscribe : Type 0 where
  pub topic_filter : Bytes
  pub opts : SubscriptionOptions

pub data AuthResult : Type 0 where
  allowed : Bool → Option AuthInfo → AuthResult
  not_found bad_username_or_password not_authorized : AuthResult

-- `HookResult`, of which the access rules give and read these.
pub data HookResult : Type 0 where
  auth_result : AuthResult → HookResult
  subscribe_acl_result : SubscribeReturn → HookResult
  publish_acl_result : PublishAclResult → HookResult
  other_result : HookResult

-- `ReturnType`: whether further handlers are asked, and the result so far.
abbrev pub ReturnType : Type 0
ReturnType = Bool × Option HookResult

abbrev unknown {ℓ} : {A : Type ℓ} → Result (Unit {0}) A
unknown = err tt

-- `Permission::try_from`
unfoldable pub permission_try_from : Bytes → Result (Unit {0}) Permission
permission_try_from s =
    if bytes_eq s (codes "allow")
    then ok allow
    else if bytes_eq s (codes "deny")
    then ok deny
    else unknown

-- `Action::try_from`
unfoldable pub action_try_from : Bytes → Result (Unit {0}) Action
action_try_from s =
    if bytes_eq s (codes "all")
    then ok all
    else if bytes_eq s (codes "publish")
    then ok publish
    else if bytes_eq s (codes "subscribe")
    then ok subscribe
    else unknown

-- `AuthInfo::is_expired`
unfoldable pub is_expired : ℕ → AuthInfo → Bool
is_expired now a = elim a.expire_at [ none ↦ false | some exp ↦ ltb exp now ]

-- `Topic::is_match`
unfoldable pub is_match : Bytes → RuleTopic → Bool
is_match topic t = elim t.eq_topic_filter [
  | some filter ↦ bytes_eq filter topic
  | none ↦ elim t.topic_filter [ some filter ↦ matches_str filter topic | none ↦ false ]
]

abbrev pub has_qos : QoS → List QoS → Bool
has_qos q [] = false
has_qos q (r ∷ rs) = if qos_value r == qos_value q then true else has_qos q rs

-- `self.qos.as_ref().map(|qos| qos.contains(q)).unwrap_or(true)`
abbrev pub takes_qos : QoS → Option (List QoS) → Bool
takes_qos q none = true
takes_qos q (some rs) = has_qos q rs

-- `matches!(self.action, Action::Subscribe | Action::All)`
abbrev pub takes_subscribe : Action → Bool
takes_subscribe publish = false
takes_subscribe _ = true

-- `matches!(self.action, Action::Publish | Action::All)`
abbrev pub takes_publish : Action → Bool
takes_publish subscribe = false
takes_publish _ = true

-- `Rule::subscribe_hit`
unfoldable pub subscribe_hit : Subscribe → Rule → Bool
subscribe_hit s r =
    if not (takes_subscribe r.action)
    then false
    else if not (takes_qos (Subscription.qos s.opts) r.qos)
    then false
    else is_match s.topic_filter r.topic

-- `Rule::publish_hit`
unfoldable pub publish_hit : Publish → Rule → Bool
publish_hit p r =
    if not (takes_publish r.action)
    then false
    else if not (takes_qos p.qos r.qos)
    then false
    else is_match p.topic r.topic

-- `Rule::publish_allow_hit`
unfoldable pub publish_allow_hit : Publish → Rule → Bool
publish_allow_hit p r = elim r.retain [
  | none ↦ publish_hit p r
  | some retain ↦ if not retain && p.retain then false else publish_hit p r
]

abbrev pub bool_eq : Bool → Bool → Bool
bool_eq true b = b
bool_eq false b = not b

-- `Rule::publish_deny_hit`
unfoldable pub publish_deny_hit : Publish → Rule → Bool
publish_deny_hit p r = elim r.retain [
  | none ↦ publish_hit p r
  | some retain ↦ if bool_eq retain p.retain then publish_hit p r else false
]

-- The answers of `subscribe_acl`.
abbrev pub subscribe_answer : Subscribe → Permission → ReturnType
subscribe_answer s allow =
    (false, some (subscribe_acl_result (new_success (Subscription.qos s.opts) none)))
subscribe_answer s deny =
    (false, some (subscribe_acl_result (new_failure SubscribeAckReason.not_authorized)))

-- The loop of `AuthInfo::subscribe_acl`
unfoldable pub subscribe_loop : Subscribe → List Rule → Option ReturnType
subscribe_loop s [] = none
subscribe_loop s (r ∷ rs) =
    let rest = subscribe_loop s rs in
    if subscribe_hit s r then some (subscribe_answer s r.permission) else rest

-- `AuthInfo::subscribe_acl`
unfoldable pub subscribe_acl : Subscribe → AuthInfo → Option ReturnType
subscribe_acl s a =
    if a.superuser then some (subscribe_answer s allow) else subscribe_loop s a.rules

-- The answers of `publish_acl`.
abbrev pub publish_answer : Bool → Permission → ReturnType
publish_answer disconnect allow = (false, some (publish_acl_result Types.allow))
publish_answer disconnect deny = (false, some (publish_acl_result (rejected disconnect none)))

-- The rule's test, by its permission.
abbrev pub publish_rule_hit : Publish → Rule → Bool
publish_rule_hit p r = elim r.permission [
  | allow ↦ publish_allow_hit p r
  | deny ↦ publish_deny_hit p r
]

-- The loop of `AuthInfo::publish_acl`
unfoldable pub publish_loop : Publish → Bool → List Rule → Option ReturnType
publish_loop p disconnect [] = none
publish_loop p disconnect (r ∷ rs) =
    let rest = publish_loop p disconnect rs in
    if publish_rule_hit p r then some (publish_answer disconnect r.permission) else rest

-- `AuthInfo::publish_acl`
unfoldable pub publish_acl : Publish → Bool → AuthInfo → Option ReturnType
publish_acl p disconnect a =
    if a.superuser
    then some (publish_answer disconnect allow)
    else publish_loop p disconnect a.rules

abbrev pub placeholder_username : Bytes
placeholder_username = codes "${username}"

abbrev pub placeholder_clientid : Bytes
placeholder_clientid = codes "${clientid}"

pub data ConfigError : Type 0 where
  no_username no_topic : ConfigError
  topic_error : TopicError → ConfigError

-- What the rules read of `ConnectInfo`.
pub record ConnectInfo : Type 0 where
  pub client_id : Bytes
  pub username : Option Bytes

abbrev with_username : Option Bytes → (Bytes → Bytes) → Result ConfigError Bytes
with_username none f = err no_username
with_username (some username) f = ok (f username)

-- `replaces`
unfoldable pub replaces : Bytes → ConnectInfo → Result ConfigError Bytes
replaces cfg c =
    let client : Bytes → Bytes = replace placeholder_clientid c.client_id in
    if has_text placeholder_username cfg
    then if has_text placeholder_clientid cfg
      then with_username c.username (λ u. client (replace placeholder_username u cfg))
      else with_username c.username (λ u. replace placeholder_username u cfg)
    else if has_text placeholder_clientid cfg
    then ok (client cfg)
    else ok cfg

abbrev parsed : Bytes → Result ConfigError Topic.Topic
parsed s = elim (from_str s) [ ok t ↦ ok t | err e ↦ err (topic_error e) ]

abbrev is_empty : Bytes → Bool
is_empty [] = true
is_empty (c ∷ s) = false

-- `Topic::try_from`
unfoldable pub topic_try_from : Bytes → ConnectInfo → Result ConfigError RuleTopic
topic_try_from cfg c = elim (strip_prefix (codes "eq ") cfg) [
  | some stripped ↦ do
    s ← replaces stripped c
    ok record { eq_topic_filter = some s; topic_filter = none }
  | none ↦ if is_empty cfg then err no_topic else do
    s ← replaces cfg c
    t ← parsed s
    ok record { eq_topic_filter = none; topic_filter = some t }
]
