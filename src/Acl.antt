-- ===== src/Acl.antt =====
-- oximqtt/src/builtins/acl.rs: the access rules of the broker's configuration. A rule names whom it
-- is for, what it is about and the topics it covers; some topics hold the name of the client, and
-- stand for a client while it is connected.
-- `oximqtt/src/acl.rs`, the rules of a single client, is `Acl/Auth`.
pub mod Texts
pub mod First
pub mod Auth
pub mod Hooks
mod Tests
mod Examples
use oximqtt.Base.{
  ℕ, suc, ◌==◌, ltb, Bool, true, false, ◌&&◌, ◌||◌, Option, none, some, List, [], ◌∷◌, length,
  if◌then◌else◌, Result, ok, err, ◌↔◌, ◌≡◌, refl, arith,
}
use oximqtt.Base.Bytes.{Bytes, bytes_eq, bytes_eq_iff}
use oximqtt.Base.OrdSet.{Ord}
use oximqtt.Topic.{Topic, TopicError, from_str}
use oximqtt.Trie
use oximqtt.Trie.{Node}
use oximqtt.Trie.Iter.{Item}
use oximqtt.Trie.Iter
use oximqtt.Trie.Items.{items, collect}

pub data Access : Type 0 where
  allow deny : Access

-- `User`: a user name with a password and whether it is a superuser, and so on.
pub data User : Type 0 where
  username : Bytes → Option Bytes → Bool → User
  clientid : Bytes → User
  ipaddr : Bytes → User
  protocol : ℕ → User
  all : User

pub data Control : Type 0 where
  all connect publish subscribe pubsub : Control

-- `Ord for Option<ClientId>`, by the bytes.
unfoldable pub bytes_lt : Bytes → Bytes → Bool
bytes_lt s [] = false
bytes_lt [] (b ∷ t) = true
bytes_lt (a ∷ s) (b ∷ t) = ltb a b || ((a == b) && bytes_lt s t)

abbrev client_lt : Option Bytes → Option Bytes → Bool
client_lt o none = false
client_lt none (some b) = true
client_lt (some a) (some b) = bytes_lt a b

abbrev pub client_eq : Option Bytes → Option Bytes → Bool
client_eq none none = true
client_eq (some a) (some b) = bytes_eq a b
client_eq _ _ = false

pub client_eq_iff : (a b : Option Bytes) → (client_eq a b ≡ true) ↔ (a ≡ b)
client_eq_iff none none = (λ _. refl, λ _. refl)
client_eq_iff none (some b) = ground arith
client_eq_iff (some a) none = ground arith
client_eq_iff (some a) (some b) = ground (arith, bytes_eq_iff a b)

instance abbrev pub client_order : Ord (Option Bytes)
client_order = record { lt = client_lt; beq = client_eq; beq_iff = client_eq_iff }

-- `Topics`. The set `eqs` is a list.
pub record Topics : Type 0 where
  pub all : Bool
  pub eqs : List Bytes
  pub eq_placeholders : List Bytes
  pub tree : Node (Option Bytes)
  pub placeholders : List Bytes

pub record Rule : Type 0 where
  pub access : Access
  pub users : List User
  pub control : Control
  pub topics : Topics

-- What a rule reads of a client: `ip` is the text of its address.
pub record Client : Type 0 where
  pub client_id : Bytes
  pub username : Option Bytes
  pub ip : Option Bytes
  pub password : Option Bytes
  pub protocol : Option ℕ

abbrev pub is_text : Bytes → Option Bytes → Bool
is_text s none = false
is_text s (some t) = bytes_eq s t

-- `User::hit` of a user name: the name, the password and the name of the rule's user, its password
-- and its mark, and whether the rule allows.
unfoldable pub username_hit :
    Option Bytes → Option Bytes → Bytes → Option Bytes → Bool → Bool → Bool × Bool
username_hit (some name2) (some password2) name1 (some password1) superuser true =
    (bytes_eq name1 name2 && bytes_eq password1 password2, superuser)
username_hit (some name2) (some password2) name1 (some password1) superuser false =
    (bytes_eq name1 name2, false)
username_hit (some name2) password name1 none superuser true = (bytes_eq name1 name2, superuser)
username_hit (some name2) password name1 none superuser false = (bytes_eq name1 name2, false)
username_hit (some name2) none name1 (some password1) superuser allows = (false, false)
username_hit none password name1 password1 superuser allows = (false, false)

-- `User::hit`: whether the user is meant, and whether it is a superuser.
unfoldable pub user_hit : Client → Bool → User → Bool × Bool
user_hit c allows all = (true, false)
user_hit c allows (username name password superuser) =
    username_hit c.username c.password name password superuser allows
user_hit c allows (clientid id) = (bytes_eq c.client_id id, false)
user_hit c allows (ipaddr ip) = (is_text ip c.ip, false)
user_hit c allows (protocol level) = (elim c.protocol [ none ↦ false | some v ↦ v == level ], false)

-- The loop of `Rule::hit`, with the mark of the user before.
unfoldable pub hit_loop : Client → Bool → Bool → List User → Bool × Bool
hit_loop c allows superuser [] = (true, superuser)
hit_loop c allows superuser (u ∷ us) =
    let rest = hit_loop c allows (user_hit c allows u).1 us in
    if (user_hit c allows u).0 then rest else (false, false)

-- `Rule::hit`
abbrev pub hit : Client → Bool → Rule → Bool × Bool
hit c allows r = hit_loop c allows false r.users

-- `tree.matches(&topic).iter()`
unfoldable pub matched : Node (Option Bytes) → Topic → List (Item (Option Bytes))
matched tree t = collect (suc (length (items t tree []))) (suc (length t)) (Iter.matches tree t)

abbrev pub has_text : Bytes → List Bytes → Bool
has_text s [] = false
has_text s (t ∷ ts) = if bytes_eq t s then true else has_text s ts

-- The loop of `is_match` over the values of a filter: a value of no client, or of this one.
unfoldable pub values_match : Bytes → List (Option Bytes) → Bool
values_match client [] = false
values_match client (none ∷ vs) = true
values_match client (some cid ∷ vs) =
    let rest = values_match client vs in if bytes_eq cid client then true else rest

-- The loop of `is_match` over the filters.
unfoldable pub items_match : Bytes → List (Item (Option Bytes)) → Bool
items_match client [] = false
items_match client ((f, vs) ∷ rest) =
    let more = items_match client rest in if values_match client vs then true else more

-- `Topics::is_match`
unfoldable pub is_match : Topic → Bytes → Bytes → Topics → Bool
is_match filter text client t =
    if t.all
    then true
    else if has_text text t.eqs
    then true
    else items_match client (matched t.tree filter)
