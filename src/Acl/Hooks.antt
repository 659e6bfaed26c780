-- ===== src/Acl/Hooks.antt =====
-- The hooks of oximqtt/src/builtins/acl.rs: what `AclHandler` answers, and what it does with the
-- rules when a client comes and goes. The task that builds the placeholders is taken as one step.
pub mod Matches
pub mod Removed
pub mod Clients
pub mod Opened
pub mod Applies
pub mod Decisions
use oximqtt.Base.{
  ℕ, Bool, true, false, ◌&&◌, Option, none, some, List, [], ◌∷◌, ◌++◌, if◌then◌else◌, Result, ok,
  err,
}
use oximqtt.Base.Bytes.{Bytes, codes, bytes_eq}
use oximqtt.Codec.V3.{Publish}
use oximqtt.Topic.{Topic, TopicError, from_str}
use oximqtt.Trie
use oximqtt.Trie.{Node}
use oximqtt.Trie.Iter.{Item}
use oximqtt.Subscription
use oximqtt.Types.{SubscribeAckReason, new_success, new_failure, failure, rejected, is_rejected}
use oximqtt.Types
use oximqtt.Acl.Texts.{replace}
use oximqtt.Acl.Auth.{
  AuthResult, allowed, not_authorized, bad_username_or_password, HookResult, auth_result,
  subscribe_acl_result, publish_acl_result, ReturnType, Subscribe,
}
use oximqtt.Acl.{
  Access, allow, deny, Control, all, connect, publish, subscribe, pubsub, Topics, Rule, Client,
  client_order, hit, matched, has_text, is_match,
}

-- What a method of a rule does to its topics.
abbrev with_topics : Topics → Rule → Rule
with_topics t r = record r { topics = t }

-- `Rule::add_topic_filter`
unfoldable pub add_topic_filter : Bytes → Bytes → Topics → Result TopicError Topics
add_topic_filter filter client t = elim (from_str filter) [
  | err e ↦ err e
  | ok f ↦ ok record t { tree = (Trie.insert f (some client) t.tree).0 }
]

-- The inner loop of `Rule::remove_topic`: the filter, once for each value of the client.
abbrev pub collect_values : Bytes → Topic → List (Option Bytes) → List Topic
collect_values client f [] = []
collect_values client f (none ∷ vs) = collect_values client f vs
collect_values client f (some cid ∷ vs) =
    let rest = collect_values client f vs in if bytes_eq cid client then f ∷ rest else rest

-- The first loop of `Rule::remove_topic`
unfoldable pub collect_topics : Bytes → List (Item (Option Bytes)) → List Topic
collect_topics client [] = []
collect_topics client ((f, vs) ∷ rest) = collect_values client f vs ++ collect_topics client rest

-- The second loop of `Rule::remove_topic`
unfoldable pub remove_all : Bytes → List Topic → Node (Option Bytes) → Node (Option Bytes)
remove_all client [] tree = tree
remove_all client (f ∷ fs) tree = remove_all client fs (Trie.remove f (some client) tree).0

-- `Rule::remove_topic`
unfoldable pub remove_topic : Bytes → Bytes → Topics → Result TopicError Topics
remove_topic topic client t = elim (from_str topic) [
  | err e ↦ err e
  | ok f ↦
      ok record t { tree = remove_all client (collect_topics client (matched t.tree f)) t.tree }
]

-- `Rule::add_topic_to_eqs`
abbrev pub add_topic_to_eqs : Bytes → Topics → Topics
add_topic_to_eqs topic t = record t { eqs = if has_text topic t.eqs then t.eqs else topic ∷ t.eqs }

-- `PH_C` and `PH_U`
abbrev pub ph_c : Bytes
ph_c = codes "%c"

abbrev pub ph_u : Bytes
ph_u = codes "%u"

-- A placeholder with the names of a client; the user name is empty where there is none.
unfoldable pub expand : Client → Bytes → Bytes
expand c text =
    replace ph_u (elim c.username [ none ↦ [] | some u ↦ u ]) (replace ph_c c.client_id text)

abbrev or_same : Result TopicError Topics → Topics → Topics
or_same (ok t') t = t'
or_same (err e) t = t

-- `build_placeholders`, the loop over the filters of a rule: the topics, and the filters made. One
-- that does not parse is only logged.
unfoldable pub build_filters : Client → List Bytes → Topics → Topics × List Bytes
build_filters c [] t = (t, [])
build_filters c (ph ∷ phs) t =
    let tf = expand c ph in
    let (t', tfs) = build_filters c phs (or_same (add_topic_filter tf c.client_id t) t) in
    (t', tf ∷ tfs)

-- `build_placeholders`, the loop over the exact topics of a rule.
unfoldable pub build_eqs : Client → List Bytes → Topics → Topics
build_eqs c [] t = t
build_eqs c (ph ∷ phs) t = build_eqs c phs (add_topic_to_eqs (expand c ph) t)

-- `hook` for `ClientConnected`: the rules, and the filters that the session remembers, `cache`.
unfoldable pub client_connected : Client → List Rule → List Bytes → List Rule × List Bytes
client_connected c [] cache = ([], cache)
client_connected c (r ∷ rs) cache =
    let (t, tfs) = build_filters c r.topics.placeholders r.topics in
    let r' = with_topics (build_eqs c r.topics.eq_placeholders t) r in
    let (rs', cache') = client_connected c rs (cache ++ tfs) in (r' ∷ rs', cache')

-- `hook` for `ClientDisconnected`, for one filter that was remembered.
unfoldable pub forget_filter : Bytes → Bytes → List Rule → List Rule
forget_filter client filter [] = []
forget_filter client filter (r ∷ rs) =
    with_topics (or_same (remove_topic filter client r.topics) r.topics) r
    ∷ forget_filter client filter rs

-- `hook` for `ClientDisconnected`
unfoldable pub client_disconnected : Bytes → List Bytes → List Rule → List Rule
client_disconnected client [] rs = rs
client_disconnected client (filter ∷ filters) rs =
    client_disconnected client filters (forget_filter client filter rs)

abbrev pub is_allow : Access → Bool
is_allow allow = true
is_allow deny = false

-- `matches!(rule.control, Control::Connect | Control::All)`, and so on.
abbrev pub for_connect : Control → Bool
for_connect connect = true
for_connect all = true
for_connect _ = false

abbrev pub for_subscribe : Control → Bool
for_subscribe subscribe = true
for_subscribe pubsub = true
for_subscribe all = true
for_subscribe _ = false

abbrev pub for_publish : Control → Bool
for_publish publish = true
for_publish pubsub = true
for_publish all = true
for_publish _ = false

-- An earlier handler refused the client.
abbrev pub is_refused_auth : Option HookResult → Bool
is_refused_auth (some (auth_result bad_username_or_password)) = true
is_refused_auth (some (auth_result not_authorized)) = true
is_refused_auth _ = false

-- `hook` for `ClientAuthenticate`, the answer of a rule that hits.
abbrev pub auth_answer : Client → Rule → ReturnType
auth_answer c r =
    if is_allow r.access
    then (false, some (auth_result (allowed (hit c true r).1 none)))
    else (false, some (auth_result not_authorized))

-- Whether a rule hits: it is about connecting, and all of its users are the client.
unfoldable pub auth_hit : Client → Rule → Bool
auth_hit c r = for_connect r.control && (hit c (is_allow r.access) r).0

-- `hook` for `ClientAuthenticate`, the loop.
unfoldable pub auth_loop : Client → List Rule → ReturnType
auth_loop c [] = (false, some (auth_result not_authorized))
auth_loop c (r ∷ rs) = let rest = auth_loop c rs in if auth_hit c r then auth_answer c r else rest

-- `hook` for `ClientAuthenticate`
unfoldable pub client_authenticate : Client → List Rule → Option HookResult → ReturnType
client_authenticate c rs acc = if is_refused_auth acc then (false, acc) else auth_loop c rs

-- `Topic::from_str(..).unwrap_or_else(|_| Topic::from(Vec::new()))`
abbrev pub topic_or_empty : Bytes → Topic
topic_or_empty s = elim (from_str s) [ ok t ↦ t | err e ↦ [] ]

-- Whether a rule hits a topic: it is about the request, its users are the client, its topics match.
unfoldable pub topic_hit : (Control → Bool) → Client → Bytes → Rule → Bool
topic_hit about c topic r =
    about r.control
    && (hit c (is_allow r.access) r).0
    && is_match (topic_or_empty topic) topic c.client_id r.topics

-- `hook` for `ClientSubscribeCheckAcl`, its answers.
abbrev pub refuse_subscribe : ReturnType
refuse_subscribe =
    (false, some (subscribe_acl_result (new_failure SubscribeAckReason.unspecified_error)))

abbrev pub subscribe_answer : Subscribe → Access → ReturnType
subscribe_answer s allow =
    (false, some (subscribe_acl_result (new_success (Subscription.qos s.opts) none)))
subscribe_answer s deny = refuse_subscribe

-- `hook` for `ClientSubscribeCheckAcl`, the loop.
unfoldable pub subscribe_loop : Client → Subscribe → List Rule → ReturnType
subscribe_loop c s [] = refuse_subscribe
subscribe_loop c s (r ∷ rs) =
    let rest = subscribe_loop c s rs in
    if topic_hit for_subscribe c s.topic_filter r then subscribe_answer s r.access else rest

abbrev pub is_refused_subscribe : Option HookResult → Bool
is_refused_subscribe (some (subscribe_acl_result r)) = failure r
is_refused_subscribe _ = false

-- `hook` for `ClientSubscribeCheckAcl`
unfoldable pub subscribe_check_acl : Client → Subscribe → List Rule → Option HookResult → ReturnType
subscribe_check_acl c s rs acc =
    if is_refused_subscribe acc then (false, acc) else subscribe_loop c s rs

-- `hook` for `MessagePublishCheckAcl`, its answers.
abbrev pub refuse_publish : Bool → ReturnType
refuse_publish disconnect = (false, some (publish_acl_result (rejected disconnect none)))

abbrev pub publish_answer : Bool → Access → ReturnType
publish_answer disconnect allow = (false, some (publish_acl_result Types.allow))
publish_answer disconnect deny = refuse_publish disconnect

-- `hook` for `MessagePublishCheckAcl`, the loop.
unfoldable pub publish_loop : Bool → Client → Bytes → List Rule → ReturnType
publish_loop disconnect c topic [] = refuse_publish disconnect
publish_loop disconnect c topic (r ∷ rs) =
    let rest = publish_loop disconnect c topic rs in
    if topic_hit for_publish c topic r then publish_answer disconnect r.access else rest

abbrev pub is_refused_publish : Option HookResult → Bool
is_refused_publish (some (publish_acl_result r)) = is_rejected r
is_refused_publish _ = false

-- `hook` for `MessagePublishCheckAcl`; `disconnect` is `disconnect_if_pub_rejected`.
unfoldable pub publish_check_acl :
    Bool → Client → Bytes → List Rule → Option HookResult → ReturnType
publish_check_acl disconnect c topic rs acc =
    if is_refused_publish acc then (false, acc) else publish_loop disconnect c topic rs
