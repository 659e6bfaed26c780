-- ===== src/Acl/Hooks/Applies.antt =====
-- Which clients and topics a rule of oximqtt/src/builtins/acl.rs applies to.
use oximqtt.Base.{
  ℕ, ◌==◌, ==_iff, ◌≡◌, ◌≢◌, refl, ◌⊎◌, inl, inr, ◌↔◌, Bool, true, false, Option, none, some, List,
  [], ◌∷◌, All, arith, Bool-cases, Result-cases, ap, sym, ◌∙◌, ok, err,
}
use oximqtt.Base.Bytes.{Bytes, bytes_eq, bytes_eq_iff}
use oximqtt.Topic.{Topic, TopicError, from_str}
use oximqtt.Types.{PublishAckReason, PublishAclResult, is_success_code}
use oximqtt.Acl.Auth.{
  HookResult, auth_result, subscribe_acl_result, publish_acl_result, other_result,
}
use oximqtt.Acl.{
  Access, allow, deny, User, username, clientid, ipaddr, protocol, Control, Topics, Rule, Client,
  is_text, username_hit, user_hit, hit_loop, has_text, is_match,
}
use oximqtt.Acl.Hooks.{is_allow, for_publish, topic_or_empty, topic_hit, is_refused_publish}
use oximqtt.Acl.Hooks.Matches.{Covers, is_match_iff}

-- The client is the user. A password that the rule names has to be the client's for a rule that
-- allows; for one that denies the client has to have some password.
abbrev pub IsUser : Client → Access → User → Type 0
IsUser c a User.all = Unit
IsUser c a (clientid id) = c.client_id ≡ id
IsUser c a (ipaddr ip) = c.ip ≡ some ip
IsUser c a (protocol level) = c.protocol ≡ some level
IsUser c a (username name none superuser) = c.username ≡ some name
IsUser c a (username name (some password) superuser) =
    (c.username ≡ some name)
    × ((given : Bytes) × (c.password ≡ some given) × (a ≡ allow → given ≡ password))

-- The topics of a rule cover the text for a client; `t` is the text as a topic.
abbrev IsCovered : Topic → Bytes → Client → Topics → Type 0
IsCovered t topic c ts =
    (ts.all ≡ true) ⊎ ((has_text topic ts.eqs ≡ true) ⊎ Covers ts.tree t c.client_id)

-- A text that does not parse is taken for the topic without levels.
abbrev CoversText : Bytes → Client → Topics → Type 0
CoversText topic c ts =
    ((t : Topic) × (from_str topic ≡ ok t) × IsCovered t topic c ts)
    ⊎ ((e : TopicError) × (from_str topic ≡ err e) × IsCovered [] topic c ts)

-- The rule is about publishing, its users are all the client, its topics cover the text.
abbrev pub AppliesPublish : Client → Bytes → Rule → Type 0
AppliesPublish c topic r =
    ((r.control ≡ Control.publish) ⊎ ((r.control ≡ Control.pubsub) ⊎ (r.control ≡ Control.all)))
    × All (IsUser c r.access) r.users
    × CoversText topic c r.topics

-- An earlier handler refused the message.
abbrev pub IsRefused : Option HookResult → Type 0
IsRefused acc =
    (r : PublishAclResult) × (acc ≡ some (publish_acl_result r))
    × (r.reason_code ≢ PublishAckReason.success)

for_publish_iff :
    (k : Control)
    → (for_publish k ≡ true) ↔ ((k ≡ Control.publish) ⊎ ((k ≡ Control.pubsub) ⊎ (k ≡ Control.all)))
for_publish_iff Control.all = (λ h. inr (inr refl), λ h. refl)
for_publish_iff Control.connect =
    (λ h. cc, λ h. elim h [ inl e ↦ cc | inr i ↦ elim i [ inl e ↦ cc | inr e ↦ cc ] ])
for_publish_iff Control.publish = (λ h. inl refl, λ h. refl)
for_publish_iff Control.subscribe =
    (λ h. cc, λ h. elim h [ inl e ↦ cc | inr i ↦ elim i [ inl e ↦ cc | inr e ↦ cc ] ])
for_publish_iff Control.pubsub = (λ h. inr (inl refl), λ h. refl)

-- The user name and the password that a client gives are those of the rule.
abbrev IsNamed : Option Bytes → Option Bytes → Access → Bytes → Option Bytes → Type 0
IsNamed u w a name none = u ≡ some name
IsNamed u w a name (some password) =
    (u ≡ some name) × ((given : Bytes) × (w ≡ some given) × (a ≡ allow → given ≡ password))

some_iff : (name other : Bytes) → (bytes_eq name other ≡ true) ↔ (some other ≡ some name)
some_iff name other =
    let k = bytes_eq_iff name other in
    (λ h. ap some (sym (k.0 h)), λ h. k.1 (let e : name ≡ other = ground arith in e))

IsNamed-iff :
    (u w : Option Bytes) (a : Access) (name : Bytes) (password : Option Bytes) (superuser : Bool)
    → ((username_hit u w name password superuser (is_allow a)).0 ≡ true)
      ↔ IsNamed u w a name password
unfolding username_hit
IsNamed-iff none w a name none su = (λ h. cc, λ h. cc)
IsNamed-iff none w a name (some password) su = (λ h. cc, λ h. let e = h.0 in cc)
IsNamed-iff (some n) none allow name none su = some_iff name n
IsNamed-iff (some n) none deny name none su = some_iff name n
IsNamed-iff (some n) (some g) allow name none su = some_iff name n
IsNamed-iff (some n) (some g) deny name none su = some_iff name n
IsNamed-iff (some n) none a name (some password) su = (λ h. cc, λ (e, (g, i, k)). cc)
IsNamed-iff (some n) (some g) allow name (some password) su =
    let x = some_iff name n in
    let y = bytes_eq_iff password g in
    (
      λ h. (x.0 (ground arith), (g, refl, λ e. sym (y.0 (ground arith)))),
      λ (e, (g', i, k)).
          let z = x.1 e in
          let j : g' ≡ g = ground arith in let v = y.1 (sym (sym j ∙ k refl)) in ground arith,
    )
IsNamed-iff (some n) (some g) deny name (some password) su =
    let x = some_iff name n in (λ h. (x.0 h, (g, refl, λ e. cc)), λ h. x.1 h.0)

number_iff :
    (o : Option ℕ) (n : ℕ) → (elim o [ none ↦ false | some v ↦ v == n ] ≡ true) ↔ (o ≡ some n)
number_iff none n = (λ h. cc, λ h. cc)
number_iff (some v) n =
    let k = ==_iff v n in (λ h. ap some (k.0 h), λ h. k.1 (let e : v ≡ n = ground arith in e))

address_iff : (o : Option Bytes) (ip : Bytes) → (is_text ip o ≡ true) ↔ (o ≡ some ip)
address_iff none ip = (λ h. cc, λ h. cc)
address_iff (some t) ip = some_iff ip t

user_hit_iff :
    (c : Client) (a : Access) (u : User) → ((user_hit c (is_allow a) u).0 ≡ true) ↔ IsUser c a u
unfolding user_hit
user_hit_iff c a User.all = (λ h. tt, λ h. refl)
user_hit_iff c a (username name none superuser) =
    IsNamed-iff c.username c.password a name none superuser
user_hit_iff c a (username name (some password) superuser) =
    IsNamed-iff c.username c.password a name (some password) superuser
user_hit_iff c a (clientid id) = bytes_eq_iff c.client_id id
user_hit_iff c a (ipaddr ip) = address_iff c.ip ip
user_hit_iff c a (protocol level) = number_iff c.protocol level

hit_iff :
    (c : Client) (a : Access) (superuser : Bool) (us : List User)
    → ((hit_loop c (is_allow a) superuser us).0 ≡ true) ↔ All (IsUser c a) us
unfolding hit_loop
hit_iff c a superuser [] = (λ h. tt, λ h. refl)
hit_iff c a superuser (u ∷ us) =
    let k = user_hit_iff c a u in
    let i = hit_iff c a (user_hit c (is_allow a) u).1 us in
    elim (Bool-cases (user_hit c (is_allow a) u).0) [
      | inl b ↦ (λ h. (k.0 b, i.0 (rw (hit_loop, b) at h)), λ h. rw (hit_loop, b) (i.1 h.1))
      | inr b ↦ (λ h. let z = rw (hit_loop, b) at h in cc, λ h. let z = k.1 h.0 in cc)
    ]

covers_iff :
    (topic : Bytes) (c : Client) (ts : Topics)
    → (is_match (topic_or_empty topic) topic c.client_id ts ≡ true) ↔ CoversText topic c ts
covers_iff topic c ts = elim (Result-cases (from_str topic)) [
  | inl (t, e) ↦
      let i = is_match_iff t topic c.client_id ts in
      (
        λ h. inl (t, e, i.0 (rw (topic_or_empty, e) at h)),
        λ h. elim h [
          | inl (t', e', g) ↦
              let j : t' ≡ t = ground arith in rw (topic_or_empty, e) (i.1 (rw j at g))
          | inr (x, e', g) ↦ absurd (ground arith)
        ],
      )
  | inr (x, e) ↦
      let i = is_match_iff [] topic c.client_id ts in
      (
        λ h. inr (x, e, i.0 (rw (topic_or_empty, e) at h)),
        λ h. elim h [
          | inl (t', e', g) ↦ absurd (ground arith)
          | inr (x', e', g) ↦ rw (topic_or_empty, e) (i.1 g)
        ],
      )
]

-- The test of a rule says whether it applies.
pub topic_hit_iff :
    (c : Client) (topic : Bytes) (r : Rule)
    → (topic_hit for_publish c topic r ≡ true) ↔ AppliesPublish c topic r
unfolding topic_hit
topic_hit_iff c topic r =
    let a = for_publish_iff r.control in
    let b = hit_iff c r.access false r.users in
    let d = covers_iff topic c r.topics in
    (
      λ h. (a.0 (ground arith), b.0 (ground arith), d.0 (ground arith)),
      λ h. let x = a.1 h.0 in let y = b.1 h.1 in let z = d.1 h.2 in rw (topic_hit, x, y, z) refl,
    )

success-cases :
    (k : PublishAckReason)
    → ((k ≡ PublishAckReason.success) × (is_success_code k ≡ true))
      ⊎ ((k ≢ PublishAckReason.success) × (is_success_code k ≡ false))
success-cases PublishAckReason.success = inl (refl, refl)
success-cases PublishAckReason.no_matching_subscribers = inr (λ e. cc, refl)
success-cases PublishAckReason.unspecified_error = inr (λ e. cc, refl)
success-cases PublishAckReason.implementation_specific_error = inr (λ e. cc, refl)
success-cases PublishAckReason.not_authorized = inr (λ e. cc, refl)
success-cases PublishAckReason.topic_name_invalid = inr (λ e. cc, refl)
success-cases PublishAckReason.packet_identifier_in_use = inr (λ e. cc, refl)
success-cases PublishAckReason.quota_exceeded = inr (λ e. cc, refl)
success-cases PublishAckReason.payload_format_invalid = inr (λ e. cc, refl)

pub is_refused_publish_iff :
    (acc : Option HookResult) → (is_refused_publish acc ≡ true) ↔ IsRefused acc
is_refused_publish_iff none = (λ h. cc, λ h. absurd (ground arith))
is_refused_publish_iff (some (auth_result a)) = (λ h. cc, λ (r, e, n). cc)
is_refused_publish_iff (some (subscribe_acl_result a)) = (λ h. cc, λ (r, e, n). cc)
is_refused_publish_iff (some other_result) = (λ h. cc, λ (r, e, n). cc)
is_refused_publish_iff (some (publish_acl_result r)) = elim (success-cases r.reason_code) [
  | inl (e, f) ↦ (
    λ h. absurd (ground arith),
    λ (x, g, n). let i : r ≡ x = ground arith in absurd (n (ap (λ y. y.reason_code) (sym i) ∙ e)),
  )
  | inr (n, f) ↦ (λ h. (r, refl, n), λ h. ground arith)
]
