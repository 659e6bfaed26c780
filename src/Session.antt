-- ===== src/Session.antt =====
-- oximqtt/src/session.rs: the state of a session, and how it publishes what its client sends.
-- The hooks, the delayed sender, the forwarding of messages and the connection are parameters, each
-- of which may answer by all that went before. The state keeps, newest first, what was done.
-- An error keeps its code and not its text.
pub mod Inbound
pub mod Outbound
mod Tests
use oximqtt.Base.{
  ℕ, ◌+◌, Bool, true, false, Option, none, some, List, [], ◌∷◌, length, leb, if◌then◌else◌, Result,
  ok, err, ◌≡◌, ap,
}
use oximqtt.Base.Bytes.{Bytes}
use oximqtt.Base.Maps.{Map, lookup, has_key, set, number_key}
use oximqtt.Codec.V3
use oximqtt.Inflight
use oximqtt.Inflight.{InInflight}
use oximqtt.Types.{
  PublishAckReason, PublishResult, PublishAclResult, publish_success, is_success, is_allow,
}

-- `Publish`: the message of the codec, and the topic alias among its properties.
pub record Publish : Type 0 where
  pub inner : V3.Publish
  pub topic_alias : Option ℕ

-- Why a session ends, or drops a message.
pub data Reason : Type 0 where
  window : Inflight.Reason → Reason
  protocol_error : Reason
  publish_ack_reason : PublishAckReason → Reason
  publish_result : PublishResult → Reason
  other : Bytes → Reason

-- What a session sends to its client in answer.
pub data Reply : Type 0 where
  publish_ack publish_received : ℕ → PublishResult → Reply
  publish_complete : ℕ → Reply

-- What a session has done: the message as it came and as it was forwarded, the messages that were
-- dropped, the answers handed to the connection.
pub data Effect : Type 0 where
  forwarded : Publish → Publish → Effect
  dropped : Publish → Reason → Effect
  replied : Reply → Effect

-- What stands around a session.
pub record Env : Type 0 where
  pub delayed_publish : List Effect → Publish → Result Reason Publish
  pub message_publish : List Effect → Publish → Option Publish
  pub message_publish_check_acl : List Effect → Publish → PublishAclResult
  pub forwards : List Effect → Publish → Result Reason (Unit {0})
  pub send : List Effect → Reply → Result Reason (Unit {0})

pub record ClientTopicAliases : Type 0 where
  pub max_topic_aliases : ℕ
  pub aliases : Map ℕ Bytes

-- The fields of `SessionState` that the messages of the client change, the two counters of failed
-- publishes, and what was done.
pub record SessionState : Type 0 where
  pub client_topic_aliases : Option ClientTopicAliases
  pub in_inflight : InInflight
  pub qos2_pending : List (ℕ × Publish)
  pub publish_errors : ℕ
  pub publish_auth_errors : ℕ
  pub trace : List Effect

-- A method: the state is kept where it ends in an error.
abbrev pub M : Type 0 → Type 0
M A = SessionState → Result Reason A × SessionState

module _ {A : Type 0} where
  abbrev pub pure : A → M A
  pure a s = (ok a, s)

  abbrev pub raise : Reason → M A
  raise e s = (err e, s)

infixl 5 ◌>>=◌ ◌>>◌
abbrev pub ◌>>=◌ : {A B : Type 0} → M A → (A → M B) → M B
◌>>=◌ m f s = let (r, s') = m s in elim r [ ok a ↦ f a s' | err e ↦ (err e, s') ]

abbrev pub ◌>>◌ : {A B : Type 0} → M A → M B → M B
m >> k = m >>= λ _. k

module _ {A B : Type 0} (m : M A) (f : A → M B) {s s' : SessionState} where
  pub bind-ok : {a : A} → m s ≡ (ok a, s') → (m >>= f) s ≡ f a s'
  bind-ok {a} h =
      ap
        (λ (x : Result Reason A × SessionState). elim x.0 [ ok a ↦ f a x.1 | err e ↦ (err e, x.1) ])
        h

  pub bind-err : {e : Reason} → m s ≡ (err e, s') → (m >>= f) s ≡ (err e, s')
  bind-err {e} h =
      ap
        (λ (x : Result Reason A × SessionState). elim x.0 [ ok a ↦ f a x.1 | err e ↦ (err e, x.1) ])
        h

-- A call, by its result.
pub by_result :
    {A : Type 0} (x : Result Reason A × SessionState) {r : Result Reason A} → x.0 ≡ r → x ≡ (r, x.1)
by_result x h = ap (λ r. (r, x.1)) h

abbrev pub log : Effect → SessionState → SessionState
log e s = record s { trace = e ∷ s.trace }

abbrev is_empty : Bytes → Bool
is_empty [] = true
is_empty (c ∷ s) = false

abbrev alias_error : Result Reason Bytes
alias_error = err (publish_ack_reason PublishAckReason.implementation_specific_error)

-- `ClientTopicAliases::set_and_get`
unfoldable pub set_and_get :
    Option ℕ → Bytes → ClientTopicAliases → Result Reason Bytes × ClientTopicAliases
set_and_get none topic a = if is_empty topic then (alias_error, a) else (ok topic, a)
set_and_get (some alias) topic a =
    let updated = record a { aliases = set alias topic a.aliases } in
    if is_empty topic
    then (elim (lookup alias a.aliases) [ none ↦ alias_error | some t ↦ ok t ], a)
    else if has_key alias a.aliases
    then (ok topic, updated)
    else if leb a.max_topic_aliases (length a.aliases)
    then (alias_error, a)
    else (ok topic, updated)

abbrev with_topic : Bytes → Publish → Publish
with_topic topic p = record {
  inner = record p.inner { topic = topic };
  topic_alias = p.topic_alias;
}

-- The first step of `_publish`: the topic of the message by its alias.
unfoldable pub resolve_alias : Publish → M Publish
resolve_alias p s = elim s.client_topic_aliases [
  | none ↦ (ok p, s)
  | some a ↦
      let (r, a') = set_and_get p.topic_alias p.inner.topic a in
      (
        elim r [ ok topic ↦ ok (with_topic topic p) | err e ↦ err e ],
        record s { client_topic_aliases = some a' },
      )
]

-- What `_publish` does where the access rules refuse the message.
unfoldable pub refuse : Publish → PublishAclResult → M PublishResult
refuse p acl s = (
  if acl.disconnect then err (publish_ack_reason acl.reason_code) else ok acl,
  log (dropped p (publish_result acl)) record s { publish_auth_errors = s.publish_auth_errors + 1 },
)

abbrev pub unwrap_or : Option Publish → Publish → Publish
unwrap_or none p = p
unwrap_or (some q) p = q

module _ (env : Env) where
  -- The call of `forwards` in `_publish`.
  unfoldable pub forward : Publish → Publish → M PublishResult
  forward received p s = (
    elim (env.forwards s.trace p) [ ok _ ↦ ok publish_success | err e ↦ err e ],
    log (forwarded received p) s,
  )

  -- `_publish`, from the delayed sender on; `received` is the message as it came.
  unfoldable pub publish_resolved : Publish → Publish → M PublishResult
  publish_resolved received p s = elim (env.delayed_publish s.trace p) [
    | err e ↦ (err e, s)
    | ok q ↦
        let h = unwrap_or (env.message_publish s.trace q) q in
        let acl = env.message_publish_check_acl s.trace h in
        if is_allow acl then forward received h s else refuse h acl s
  ]

  -- `_publish`
  unfoldable pub publish_inner : Publish → M PublishResult
  publish_inner received = do p ← resolve_alias received; publish_resolved received p

  abbrev count_error : SessionState → SessionState
  count_error s = record s { publish_errors = s.publish_errors + 1 }

  -- `publish`
  unfoldable pub publish : Publish → M PublishResult
  publish p s =
      let (r, s') = publish_inner p s in
      elim r [
        | err e ↦ (err e, count_error s')
        | ok res ↦
            if is_success res
            then (ok res, s')
            else if res.disconnect
            then (err (publish_ack_reason res.reason_code), count_error s')
            else (ok res, count_error s')
      ]

  -- `send_publish_ack`, `send_publish_received` and `send_publish_complete`
  unfoldable pub send : Reply → M (Unit {0})
  send r s = (env.send s.trace r, log (replied r) s)
