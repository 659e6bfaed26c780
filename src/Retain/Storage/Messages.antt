-- ===== src/Retain/Storage/Messages.antt =====
-- Which messages the storage of oximqtt/src/retain.rs keeps, and which it gives to a new subscriber.
use oximqtt.Base.{
  ℕ, ◌+◌, ◌<◌, ◌^◌, ◌≡◌, refl, sym, ap, ◌∙◌, ◌↔◌, true, false, Option, none, some, List, [], ◌∷◌,
  All, ok, arith, if◌then◌else◌, inl, inr, Bool-cases, subst, ap₂,
}
use mathlib.Core.List.{Memᴰ}
use mathlib.Core.List.Memᴰ
use oximqtt.Base.Bytes.{Bytes, bytes_eq}
use oximqtt.Topic.{
  Topic, from_str, to_string, split, collect_levels, level_from_str, is_valid, position,
  level_is_valid,
}
use oximqtt.Topic.Print.{to_string-from_str, from_str_parts}
use oximqtt.Trie.Paths.{path_eq}
use oximqtt.Trie.Matching.{Reaches}
use oximqtt.Router.Keys.{path_eq_iff}
use oximqtt.Retain.{remove, matches, values_size}
use oximqtt.Retain.Paths.{value_at, value_at-default, value_at-insert, value_at-remove}
use oximqtt.Retain.Trees.{IsTree, AreTrees, IsPlain, insert-IsTree, remove-IsTree}
use oximqtt.Retain.Filters.{matches_sound, matches_iff_Reaches}
use oximqtt.Retain.Storage.{
  DefaultRetainStorage, Retain, TimedValue, new, new_timed, is_empty, is_expired, set_parsed,
  set_with_timeout, unexpired, get_message,
}
use oximqtt.Retain.Storage.Counts.{IsCounted, set_parsed-IsCounted}

-- What a message leaves for its topic: nothing, where it has no payload.
abbrev pub retained_value : ℕ → Retain → Option ℕ → Option (TimedValue Retain)
retained_value now m timeout = if is_empty m.payload then none else some (new_timed now m timeout)

-- A message replaces that of its topic, or clears it, and leaves every other as it was.
pub value_at-set_parsed :
    (now : ℕ) (q p : Topic) (m : Retain) (timeout : Option ℕ) (st : DefaultRetainStorage)
    → value_at p (set_parsed now q m timeout st).messages
      ≡ (if path_eq q p then retained_value now m timeout else value_at p st.messages)
unfolding set_parsed
value_at-set_parsed now q p m timeout st =
    let left = (remove q st.messages).0 in
    let (a, b) = value_at-remove q p st.messages in
    elim (Bool-cases (is_empty m.payload)) [
      | inl e ↦ rw (set_parsed, e) (a ∙ ground (arith, e))
      | inr e ↦
          rw (set_parsed, e)
            (value_at-insert q p (new_timed now m timeout) left ∙ ground (arith, a, e))
    ]

-- The tree is well formed, its topics are texts, and the counter is right.
pub record IsValid (st : DefaultRetainStorage) : Type 0 where
  pub tree : IsTree st.messages
  pub printed :
      (t : Topic) (v : TimedValue Retain)
      → value_at t st.messages ≡ some v
      → from_str (to_string t) ≡ ok t
  pub counted : IsCounted st

pub new-IsValid : IsValid new
unfolding IsTree AreTrees values_size
new-IsValid = record {
  tree = tt;
  printed =
      λ t v h. absurd (let q = value_at-default {V = TimedValue Retain} t in ground (arith, q));
  counted = ground arith;
}

-- `set_with_timeout` keeps the storage valid, for a topic without wildcards and while the counter
-- has room.
pub set_with_timeout-IsValid :
    (now : ℕ) (name : Bytes) (t : Topic) (m : Retain) (timeout : Option ℕ)
    (st st' : DefaultRetainStorage)
    → IsValid st
    → from_str name ≡ ok t
    → All IsPlain t
    → values_size st.messages + 1 < 2 ^ 63
    → set_with_timeout now name m timeout st ≡ ok st'
    → IsValid st'
unfolding set_with_timeout set_parsed
set_with_timeout-IsValid now name t m timeout st st' v p plain room h =
    let q : set_parsed now t m timeout st ≡ st' = ground (arith, p) in
    let left = remove-IsTree t st.messages plain v.tree in
    subst IsValid q record {
      tree = elim (Bool-cases (is_empty m.payload)) [
        | inl e ↦ rw (set_parsed, e) left
        | inr e ↦
            rw (set_parsed, e)
              (insert-IsTree t (new_timed now m timeout) (remove t st.messages).0 plain left)
      ];
      printed = λ u w e. elim (Bool-cases (path_eq t u)) [
        | inl b ↦ rw (← (path_eq_iff t u).0 b) (rw (to_string-from_str name t p) p)
        | inr b ↦ v.printed u w (ground (arith, value_at-set_parsed now t u m timeout st))
      ];
      counted = set_parsed-IsCounted now t m timeout st v.tree v.counted room;
    }

no_empty_topic : (s : Bytes) → from_str s ≡ ok [] → ⊥
unfolding from_str split collect_levels level_from_str is_valid position level_is_valid bytes_eq
    to_string
no_empty_topic s h =
    let q = to_string-from_str s [] h in let h' = rw (← q) at h in ground (arith, h')

unexpired_sound :
    (now : ℕ) (ms : List (Topic × TimedValue Retain)) (x : Bytes × Retain)
    → Memᴰ x (unexpired now ms)
    → (t : Topic) × (tv : TimedValue Retain) × Memᴰ (t, tv) ms
      × (is_expired now tv ≡ false)
      × (x ≡ (to_string t, tv.inner))
unfolding unexpired
unexpired_sound now [] x m = absurd (Memᴰ.not-nil m)
unexpired_sound now ((t, tv) ∷ ms) x m = elim (Bool-cases (is_expired now tv)) [
  | inl b ↦
      let (u, w, z, e, q) = unexpired_sound now ms x (rw (unexpired, b) at m) in
      (u, w, Memᴰ.tail z, e, q)
  | inr b ↦ elim (Memᴰ.cases_cons (rw (unexpired, b) at m)) [
    | inl q ↦ (t, tv, Memᴰ.head refl, b, q)
    | inr y ↦ let (u, w, z, e, q) = unexpired_sound now ms x y in (u, w, Memᴰ.tail z, e, q)
  ]
]

unexpired_complete :
    (now : ℕ) (ms : List (Topic × TimedValue Retain)) (t : Topic) (tv : TimedValue Retain)
    → Memᴰ (t, tv) ms
    → is_expired now tv ≡ false
    → Memᴰ (to_string t, tv.inner) (unexpired now ms)
unfolding unexpired
unexpired_complete now [] t tv m e = absurd (Memᴰ.not-nil m)
unexpired_complete now ((u, w) ∷ ms) t tv m e = elim (Memᴰ.cases_cons m) [
  | inl q ↦
      let e' : is_expired now w ≡ false = subst (λ y. is_expired now y.1 ≡ false) q e in
      rw (unexpired, e') (Memᴰ.head (ap (λ y. (to_string y.0, y.1.inner)) q))
  | inr z ↦ elim (Bool-cases (is_expired now w)) [
    | inl b ↦ rw (unexpired, b) (unexpired_complete now ms t tv z e)
    | inr b ↦ rw (unexpired, b) (Memᴰ.tail (unexpired_complete now ms t tv z e))
  ]
]

-- A message that a filter is due: retained for a topic that the filter matches, and not expired.
abbrev pub IsDue : ℕ → Topic → Bytes → Retain → DefaultRetainStorage → Type 0
IsDue now f name m st =
    (t : Topic) × (tv : TimedValue Retain) × (from_str name ≡ ok t)
    × (value_at t st.messages ≡ some tv)
    × (tv.inner ≡ m)
    × (is_expired now tv ≡ false)
    × Reaches true f t

-- `get_message` gives exactly the messages that have not expired and are retained for the topics
-- that the filter matches, with the names of those topics.
pub get_message_iff :
    (now : ℕ) (filter : Bytes) (f : Topic) (st : DefaultRetainStorage) (name : Bytes) (m : Retain)
    (found : List (Bytes × Retain))
    → IsValid st
    → from_str filter ≡ ok f
    → get_message now filter st ≡ ok found
    → Memᴰ (name, m) found ↔ IsDue now f name m st
unfolding get_message
get_message_iff now filter f st name m found v p h =
    let q : unexpired now (matches f st.messages) ≡ found = ground (arith, p) in
    let (a, b, valid) = from_str_parts filter f p in
    (
      λ z.
          let (t, tv, y, e, w) =
            unexpired_sound now (matches f st.messages) (name, m) (rw (← q) at z) in
          let (stored, c) = matches_sound st.messages f t tv v.tree valid y in
          let n : name ≡ to_string t = ap (λ x. x.0) w in
          (t, tv, ap from_str n ∙ v.printed t tv stored, stored, sym (ap (λ x. x.1) w), e, c),
      λ (t, tv, n, stored, w, e, c).
          let y : (to_string t, tv.inner) ≡ (name, m) =
            ap₂ (λ (a : Bytes) (b : Retain). (a, b)) (to_string-from_str name t n) w in
          subst (λ ms. Memᴰ (name, m) ms) q
            (subst (λ x. Memᴰ x (unexpired now (matches f st.messages))) y
              (go t tv n stored e c valid)),
    )
  where
    go :
        (t : Topic) (tv : TimedValue Retain)
        → from_str name ≡ ok t
        → value_at t st.messages ≡ some tv
        → is_expired now tv ≡ false
        → Reaches true f t
        → is_valid f ≡ true
        → Memᴰ (to_string t, tv.inner) (unexpired now (matches f st.messages))
    go [] tv n stored e c valid = absurd (no_empty_topic name n)
    go (l ∷ t) tv n stored e c valid =
        let y = (matches_iff_Reaches st.messages f l t tv v.tree valid).1 (stored, c) in
        unexpired_complete now (matches f st.messages) (l ∷ t) tv y e
