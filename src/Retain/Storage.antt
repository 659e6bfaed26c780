-- ===== src/Retain/Storage.antt =====
-- The storage of oximqtt/src/retain.rs over its tree, and the retainer of
-- oximqtt/src/builtins/retainer.rs over the storage. `now` is the time that the calls of
-- `Instant::now` in one operation read.
pub mod Sizes
pub mod Counts
pub mod Messages
pub mod Cap
pub mod Pruned
pub mod Expiry
use oximqtt.Base.{
  ℕ, ◌+◌, ◌-◌, ◌^◌, Bool, true, false, not, ◌&&◌, ltb, leb, Option, none, some, List, [], ◌∷◌,
  length, take, drop, if◌then◌else◌, Result, ok, err, ◌>>=◌,
}
use oximqtt.Base.Bytes.{Bytes}
use oximqtt.Topic.{Topic, TopicError, from_str, to_string}
use oximqtt.Counter.{Counter, inc, dec, signed_ltb}
use oximqtt.Counter
use oximqtt.Retain.{Node, default, is_none, insert, remove, matches, retain}

-- A value and the time it expires.
pub record TimedValue {ℓ} (V : Type ℓ) : Type ℓ where
  pub inner : V
  pub deadline : Option ℕ

-- `retained` is what a message holds besides its payload, as one number.
pub record Retain : Type 0 where
  pub payload : Bytes
  pub retained : ℕ

-- `TimedValue::new`
abbrev pub new_timed {ℓ} : {V : Type ℓ} → ℕ → V → Option ℕ → TimedValue V
new_timed now v none = record { inner = v; deadline = none }
new_timed now v (some t) = record { inner = v; deadline = some (now + t) }

-- `TimedValue::is_expired`
abbrev pub is_expired {ℓ} : {V : Type ℓ} → ℕ → TimedValue V → Bool
is_expired now tv = elim tv.deadline [ none ↦ false | some e ↦ leb e now ]

-- `TimedValue::remaining`
abbrev pub remaining {ℓ} : {V : Type ℓ} → ℕ → TimedValue V → Option ℕ
remaining now tv = elim tv.deadline [
  | none ↦ none
  | some d ↦ if ltb now d then some (d - now) else none
]

pub record DefaultRetainStorage : Type 0 where
  pub messages : Node (TimedValue Retain)
  pub retaineds : Counter

-- `DefaultRetainStorage::new`
abbrev pub new : DefaultRetainStorage
new = record { messages = default; retaineds = Counter.new }

-- The closure of `remove_expired_messages`.
abbrev pub keeps : ℕ → TimedValue Retain → Counter → Bool × Counter
keeps now tv k = if is_expired now tv then (false, dec k) else (true, k)

-- `DefaultRetainStorage::remove_expired_messages`: `usize::MAX` is the limit.
unfoldable pub remove_expired_messages : ℕ → DefaultRetainStorage → DefaultRetainStorage × ℕ
remove_expired_messages now st =
    let (messages, (retaineds, removeds)) =
      retain (keeps now) (2 ^ 64 - 1) st.messages st.retaineds in
    (record { messages = messages; retaineds = retaineds }, removeds)

abbrev pub is_empty : Bytes → Bool
is_empty [] = true
is_empty (c ∷ s) = false

-- `DefaultRetainStorage::set_with_timeout`, from the parsed topic on.
unfoldable pub set_parsed :
    ℕ → Topic → Retain → Option ℕ → DefaultRetainStorage → DefaultRetainStorage
set_parsed now topic m timeout st =
    let (messages, old) = remove topic st.messages in
    if not (is_empty m.payload)
    then record {
      messages = insert topic (new_timed now m timeout) messages;
      retaineds = if is_none old then inc st.retaineds else st.retaineds;
    }
    else record {
      messages = messages;
      retaineds = if is_none old then st.retaineds else dec st.retaineds;
    }

-- `DefaultRetainStorage::set_with_timeout`
unfoldable pub set_with_timeout :
    ℕ → Bytes → Retain → Option ℕ → DefaultRetainStorage → Result TopicError DefaultRetainStorage
set_with_timeout now name m timeout st = do
  topic ← from_str name
  ok (set_parsed now topic m timeout st)

-- The `filter_map` of `get_message`.
unfoldable pub unexpired : ℕ → List (Topic × TimedValue Retain) → List (Bytes × Retain)
unexpired now [] = []
unexpired now ((t, tv) ∷ ms) =
    let rest = unexpired now ms in
    if is_expired now tv then rest else (to_string t, tv.inner) ∷ rest

-- `DefaultRetainStorage::get_message`
unfoldable pub get_message :
    ℕ → Bytes → DefaultRetainStorage → Result TopicError (List (Bytes × Retain))
get_message now filter st = do
  topic ← from_str filter
  ok (unexpired now (matches topic st.messages))

-- The `filter_map` of `get_all_paginated`.
unfoldable pub snapshot : ℕ → List (Topic × TimedValue Retain) → List (Bytes × (Retain × Option ℕ))
snapshot now [] = []
snapshot now ((t, tv) ∷ ms) =
    let rest = snapshot now ms in
    if is_expired now tv then rest else (to_string t, (tv.inner, remaining now tv)) ∷ rest

-- `DefaultRetainStorage::get_all_paginated`
unfoldable pub get_all_paginated :
    ℕ → ℕ → ℕ → DefaultRetainStorage → Result TopicError (List (Bytes × (Retain × Option ℕ)) × Bool)
get_all_paginated now offset limit st = do
  topic ← from_str (b'#' ∷ [])
  let all = snapshot now (matches topic st.messages)
  ok (take limit (drop offset all), ltb (offset + limit) (length all))

-- `max_retained_messages` is an `isize`, as its 64 bits.
pub record PluginConfig : Type 0 where
  pub max_retained_messages : ℕ
  pub max_payload_size : ℕ
  pub retained_message_ttl : Option ℕ

-- The time that a message is kept: that of the configuration comes first, 0 for ever.
abbrev pub expiry : Option ℕ → Option ℕ → Option ℕ
expiry none expiry_interval = expiry_interval
expiry (some ttl) expiry_interval = if leb ttl 0 then none else some ttl

abbrev pub has_no_messages : List (Bytes × Retain) → Bool
has_no_messages [] = true
has_no_messages (m ∷ ms) = false

-- The number of messages has come to the limit, if there is one.
abbrev pub is_full : PluginConfig → DefaultRetainStorage → Bool
is_full cfg st =
    signed_ltb 0 cfg.max_retained_messages
    && not (signed_ltb st.retaineds.current cfg.max_retained_messages)

-- `RamRetainer::set`
unfoldable pub set :
    PluginConfig
    → ℕ
    → Bytes
    → Retain
    → Option ℕ
    → DefaultRetainStorage
    → Result TopicError DefaultRetainStorage
unfolding get_message set_with_timeout
set cfg now name m expiry_interval st =
    let stored = set_with_timeout now name m (expiry cfg.retained_message_ttl expiry_interval) st in
    if ltb cfg.max_payload_size (length m.payload)
    then ok st
    else if is_full cfg st
    then (get_message now name st >>= (λ found. if has_no_messages found then ok st else stored))
    else stored
