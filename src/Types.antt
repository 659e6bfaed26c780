-- ===== src/Types.antt =====
-- oximqtt/src/types.rs and oximqtt/src/codec/v5/packet: what a publish or a subscription comes to,
-- as the access rules decide it and the session reports it.
use oximqtt.Base.{Bool, true, false, not, Option, none, some, List, []}
use oximqtt.Base.Bytes.{Bytes, codes}
use oximqtt.Codec.Qos.{QoS, at_most_once, at_least_once, exactly_once}
use oximqtt.Subscription.{SubscriptionOptions}

-- The reasons of PUBACK and PUBREC.
pub data PublishAckReason : Type 0 where
  success no_matching_subscribers unspecified_error implementation_specific_error : PublishAckReason
  not_authorized topic_name_invalid packet_identifier_in_use quota_exceeded : PublishAckReason
  payload_format_invalid : PublishAckReason

-- `PublishAckReason::Success`
abbrev pub is_success_code : PublishAckReason → Bool
is_success_code PublishAckReason.success = true
is_success_code _ = false

pub record PublishResult : Type 0 where
  pub reason_code : PublishAckReason
  pub properties : List (Bytes × Bytes)
  pub reason_string : Option Bytes
  pub disconnect : Bool

-- `PublishResult::success`
abbrev pub publish_success : PublishResult
publish_success = record {
  reason_code = PublishAckReason.success;
  properties = [];
  reason_string = none;
  disconnect = false;
}

-- `PublishResult::is_success`
abbrev pub is_success : PublishResult → Bool
is_success r = is_success_code r.reason_code

-- `PublishAclResult`, the result it wraps
abbrev pub PublishAclResult : Type 0
PublishAclResult = PublishResult

-- `PublishAclResult::allow`
abbrev pub allow : PublishAclResult
allow = publish_success

-- `PublishAclResult::rejected`, which names a reason where none is given.
abbrev pub rejected : Bool → Option Bytes → PublishAclResult
rejected disconnect reason_string = record {
  reason_code = PublishAckReason.not_authorized;
  properties = [];
  reason_string = some (elim reason_string [ none ↦ codes "PublishRefused" | some s ↦ s ]);
  disconnect = disconnect;
}

-- `PublishAclResult::is_allow`
abbrev pub is_allow : PublishAclResult → Bool
is_allow r = is_success_code r.reason_code

-- `PublishAclResult::is_rejected`
abbrev pub is_rejected : PublishAclResult → Bool
is_rejected r = not (is_allow r)

-- The reasons of SUBACK.
pub data SubscribeAckReason : Type 0 where
  granted_qos0 granted_qos1 granted_qos2 unspecified_error : SubscribeAckReason
  implementation_specific_error not_authorized topic_filter_invalid : SubscribeAckReason
  packet_identifier_in_use quota_exceeded shared_subscription_not_supported : SubscribeAckReason
  subscription_identifiers_not_supported wildcard_subscriptions_not_supported : SubscribeAckReason

-- `SubscribeReturn` and `SubscribeAclResult`
pub record SubscribeReturn : Type 0 where
  pub ack_reason : SubscribeAckReason
  pub prev_opts : Option SubscriptionOptions

-- The reason in `SubscribeReturn::new_success`
abbrev pub granted : QoS → SubscribeAckReason
granted at_most_once = SubscribeAckReason.granted_qos0
granted at_least_once = SubscribeAckReason.granted_qos1
granted exactly_once = SubscribeAckReason.granted_qos2

-- `SubscribeReturn::new_success`
abbrev pub new_success : QoS → Option SubscriptionOptions → SubscribeReturn
new_success qos prev_opts = record { ack_reason = granted qos; prev_opts = prev_opts }

-- `SubscribeReturn::new_failure`
abbrev pub new_failure : SubscribeAckReason → SubscribeReturn
new_failure ack_reason = record { ack_reason = ack_reason; prev_opts = none }

-- `SubscribeReturn::success`
abbrev pub granted_qos : SubscribeReturn → Option QoS
granted_qos r = elim r.ack_reason [
  | SubscribeAckReason.granted_qos0 ↦ some at_most_once
  | SubscribeAckReason.granted_qos1 ↦ some at_least_once
  | SubscribeAckReason.granted_qos2 ↦ some exactly_once
  | _ ↦ none
]

-- `SubscribeReturn::failure`
abbrev pub failure : SubscribeReturn → Bool
failure r = elim (granted_qos r) [ none ↦ true | some q ↦ false ]
