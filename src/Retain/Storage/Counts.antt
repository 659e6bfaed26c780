-- ===== src/Retain/Storage/Counts.antt =====
-- The counter of oximqtt/src/retain.rs against its messages.
use oximqtt.Base.{ℕ, ◌+◌, ◌<◌, ◌^◌, ◌≡◌, Option, none, arith, if◌then◌else◌, inl, inr, Bool-cases}
use oximqtt.Counter.Bounds.{Shows, Shows-inc_if, Shows-dec_if}
use oximqtt.Topic.{Topic}
use oximqtt.Router.Keys.{path_eq_iff}
use oximqtt.Retain.{is_none, remove, values_size}
use oximqtt.Retain.Paths.{value_at, value_at-remove}
use oximqtt.Retain.Trees.{IsTree}
use oximqtt.Retain.Storage.{DefaultRetainStorage, Retain, new_timed, is_empty, set_parsed}
use oximqtt.Retain.Storage.Sizes.{weight, values_size-insert, values_size-remove}

-- The counter shows how many messages there are.
abbrev pub IsCounted : DefaultRetainStorage → Type 0
IsCounted st = Shows st.retaineds (values_size st.messages)

-- How many messages there are after a message was set.
pub values_size-set_parsed :
    (now : ℕ) (t : Topic) (m : Retain) (timeout : Option ℕ) (st : DefaultRetainStorage)
    → IsTree st.messages
    → values_size (set_parsed now t m timeout st).messages + weight (value_at t st.messages)
      ≡ values_size st.messages + (if is_empty m.payload then 0 else 1)
unfolding set_parsed
values_size-set_parsed now t m timeout st h =
    let left = (remove t st.messages).0 in
    let (p, q) = value_at-remove t t st.messages in
    let z : value_at t left ≡ none = ground (arith, p, path_eq_iff t t) in
    let a = rw q at (values_size-remove t st.messages h) in
    let b = rw z at (values_size-insert t (new_timed now m timeout) left) in
    elim (Bool-cases (is_empty m.payload)) [
      | inl e ↦ rw (set_parsed, e) (omega (arith, a))
      | inr e ↦ rw (set_parsed, e) (omega (arith, a, b))
    ]

pub set_parsed-IsCounted :
    (now : ℕ) (t : Topic) (m : Retain) (timeout : Option ℕ) (st : DefaultRetainStorage)
    → IsTree st.messages
    → IsCounted st
    → values_size st.messages + 1 < 2 ^ 63
    → IsCounted (set_parsed now t m timeout st)
unfolding set_parsed
set_parsed-IsCounted now t m timeout st h c room =
    let (p, q) = value_at-remove t t st.messages in
    let s = values_size-set_parsed now t m timeout st h in
    elim (Bool-cases (is_empty m.payload)) [
      | inr e ↦
          rw (set_parsed, e)
            (Shows-inc_if (is_none (remove t st.messages).1) st.retaineds (values_size st.messages)
              _ c room (let s' = rw (set_parsed, e) at s in rw q (ground (arith, s'))))
      | inl e ↦
          let s' = rw (set_parsed, e) at s in
          rw (set_parsed, e)
            (Shows-dec_if (is_none (remove t st.messages).1) st.retaineds (values_size st.messages)
              _ c (rw q (omega (arith, s'))))
    ]
