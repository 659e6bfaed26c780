-- ===== src/Acl/Tests.antt =====
-- The access rules of oximqtt/src/acl.rs and oximqtt/src/builtins/acl.rs at concrete ones, and the
-- theorems there.
use oximqtt.Base.{◌≡◌, refl, Bool, true, false, Option, none, some, List, [], ◌∷◌}
use oximqtt.Base.OrdSet
use oximqtt.Base.Bytes.{codes, bytes_eq, has_byte, starts_with_byte}
use oximqtt.Codec.Qos.{at_most_once}
use oximqtt.Codec.V3.{Publish}
use oximqtt.Topic.{
  Topic, normal, multi_wildcard, has_wildcard, is_metadata_str, level_is_valid, position, is_valid,
  level_from_str, split, collect_levels, from_str, level_eq,
}
use oximqtt.Topic.Match.{match_level_str, at_end, matches_with, matches_str}
use oximqtt.Trie
use oximqtt.Trie.Paths.{values_at}
use oximqtt.Trie.Iter.{prepare, poll, next_item, refill, next}
use oximqtt.Trie.Items.{items, collect}
use oximqtt.Subscription.{v3}
use oximqtt.Acl.Texts.{strip_prefix, has_text, replace_loop}
use oximqtt.Acl.Auth
use oximqtt.Acl.Auth.{
  AuthInfo, Subscribe, ReturnType, HookResult, auth_result, allowed, not_authorized,
  publish_acl_result, subscribe_hit, publish_hit, publish_allow_hit, publish_deny_hit,
  subscribe_acl, publish_acl, publish_rule_hit, replaces, topic_try_from,
}
use oximqtt.Acl.{
  allow, User, username, clientid, all, pubsub, Topics, Rule, Client, client_order, bytes_lt,
  username_hit, user_hit, hit_loop, hit, matched, values_match, items_match, is_match,
}
use oximqtt.Acl.Hooks.{
  add_topic_filter, collect_topics, remove_all, remove_topic, expand, build_filters, build_eqs,
  client_connected, forget_filter, client_disconnected, auth_hit, auth_loop, client_authenticate,
  topic_hit, subscribe_loop, subscribe_check_acl, publish_loop, publish_check_acl, publish_answer,
  refuse_publish,
}

unfoldable pub acl : Unit {0}
unfolding bytes_eq has_byte starts_with_byte has_wildcard is_metadata_str level_is_valid position
    is_valid level_from_str split collect_levels from_str level_eq match_level_str at_end
    matches_with matches_str OrdSet.contains OrdSet.insert_sorted OrdSet.insert OrdSet.erase
    OrdSet.remove Trie.get Trie.put Trie.drop_key Trie.insert Trie.remove values_at prepare poll
    next_item refill next items collect strip_prefix has_text replace_loop subscribe_hit publish_hit
    publish_allow_hit publish_deny_hit subscribe_acl publish_acl replaces topic_try_from bytes_lt
    username_hit user_hit hit_loop matched values_match items_match is_match add_topic_filter
    collect_topics remove_all remove_topic expand build_filters build_eqs client_connected
    forget_filter client_disconnected auth_hit auth_loop client_authenticate topic_hit
    subscribe_loop subscribe_check_acl publish_loop publish_check_acl Auth.subscribe_loop
    Auth.publish_loop Auth.is_match
acl = tt

abbrev pub ann : Client
ann = record {
  client_id = codes "ann";
  username = some (codes "u");
  ip = none;
  password = none;
  protocol = some 4;
}

abbrev pub bob : Client
bob = record {
  client_id = codes "bob";
  username = none;
  ip = none;
  password = none;
  protocol = some 4;
}

abbrev pub own : Topics
own = record {
  all = false;
  eqs = [];
  eq_placeholders = codes "in/%c" ∷ [];
  tree = Trie.default;
  placeholders = codes "dev/%c/#" ∷ [];
}

-- Every client may use its own topics, and nothing else.
abbrev pub rules : List Rule
rules = record { access = allow; users = all ∷ []; control = pubsub; topics = own } ∷ []

abbrev pub after_ann : List Rule
after_ann = (client_connected ann rules []).0

abbrev pub gone : List Rule
gone = client_disconnected (codes "ann") (client_connected ann rules []).1 after_ann

abbrev pub refused : ReturnType
refused = refuse_publish true

abbrev pub accepted : ReturnType
accepted = publish_answer true allow

own_topics :
    (publish_check_acl true ann (codes "dev/ann/x") rules none ≡ refused)
    × (publish_check_acl true ann (codes "dev/ann/x") after_ann none ≡ accepted)
    × (publish_check_acl true bob (codes "dev/ann/x") after_ann none ≡ refused)
    × (publish_check_acl true ann (codes "dev/ann/x") gone none ≡ refused)
unfolding acl
own_topics = (refl, refl, refl, refl)

-- The exact topic of a client is open to every other, and stays so when the client has gone.
exact_topics :
    (publish_check_acl true bob (codes "in/ann") rules none ≡ refused)
    × (publish_check_acl true bob (codes "in/ann") after_ann none ≡ accepted)
    × (publish_check_acl true bob (codes "in/ann") gone none ≡ accepted)
unfolding acl
exact_topics = (refl, refl, refl)

-- A client by the name of a wildcard may use the topics of all.
wildcard_client :
    let c = record ann { client_id = codes "+" } in
    publish_check_acl true c (codes "dev/bob/x") (client_connected c rules []).0 none ≡ accepted
unfolding acl
wildcard_client = refl

-- The mark of a superuser is that of the last user of the rule.
superuser_last :
    let user = username (codes "u") none true in
    let with_users : List User → Rule =
      λ us. record { access = allow; users = us; control = all; topics = own } in
    (hit ann true (with_users (user ∷ [])) ≡ (true, true))
    × (hit ann true (with_users (user ∷ clientid (codes "ann") ∷ [])) ≡ (true, false))
unfolding acl
superuser_last = (refl, refl)

-- A text that does not parse is the empty topic, which the filter `#` matches.
unparsable :
    let ts = record own { tree = (Trie.insert (multi_wildcard ∷ []) none Trie.default).0 } in
    let rs : List Rule =
      record { access = allow; users = all ∷ []; control = pubsub; topics = ts } ∷ [] in
    (publish_check_acl true ann (codes "$SYS/x") rs none ≡ refused)
    × (publish_check_acl true ann (codes "$SYS/#/x") rs none ≡ accepted)
unfolding acl
unparsable = (refl, refl)

abbrev pub message : Publish
message = record {
  dup = false;
  retain = true;
  qos = at_most_once;
  topic = codes "a/b";
  packet_id = none;
  payload = [];
}

abbrev pub auth_rule : Auth.Permission → Option Bool → Auth.Rule
auth_rule permission retain = record {
  permission = permission;
  action = Auth.all;
  qos = none;
  retain = retain;
  topic = record { eq_topic_filter = none; topic_filter = some (multi_wildcard ∷ []) };
}

abbrev pub info : AuthInfo
info = record {
  superuser = false;
  expire_at = none;
  rules = auth_rule Auth.allow (some false) ∷ auth_rule Auth.deny (some true) ∷ [];
}

-- A retained message passes over the rule that allows, and is denied by the next.
retained_then : publish_acl message true info ≡ some (Auth.publish_answer true Auth.deny)
unfolding acl
retained_then = refl

abbrev pub request : Subscribe
request = record {
  topic_filter = codes "dev/ann/+";
  opts = v3 record { qos = at_most_once; shared_group = none; limit_subs = none };
}

abbrev pub own_filter : Topic
own_filter = normal (codes "dev") ∷ normal (codes "ann") ∷ multi_wildcard ∷ []
