-- ===== src/Retain/Storage/Cap.antt =====
-- The limit of the retainer of oximqtt/src/builtins/retainer.rs on the number of messages.
use oximqtt.Base.{
  ℕ, ◌+◌, ◌<◌, ◌≤◌, ◌^◌, ◌≡◌, refl, sym, Bool, true, false, Option, List, [], ◌∷◌, All, some, ok,
  arith, inl, inr, ap, if◌then◌else◌, Bool-cases, Result-cases, ltb, length, subst, ◌⊎◌,
}
use mathlib.Core.List.{Memᴰ}
use mathlib.Core.List.Memᴰ
use oximqtt.Base.Bytes.{Bytes}
use oximqtt.Topic.{Topic, from_str, multi_wildcard}
use oximqtt.Counter.{signed_ltb}
use oximqtt.Trie.Matching.{Reaches}
use oximqtt.Retain.{values_size}
use oximqtt.Retain.Paths.{value_at}
use oximqtt.Retain.Trees.{IsPlain}
use oximqtt.Retain.Storage.{
  DefaultRetainStorage, Retain, TimedValue, is_expired, PluginConfig, set_parsed, set_with_timeout,
  get_message, is_full, has_no_messages, expiry, set,
}
use oximqtt.Retain.Storage.Sizes.{weight}
use oximqtt.Retain.Storage.Counts.{values_size-set_parsed}
use oximqtt.Retain.Storage.Messages.{
  IsValid, set_with_timeout-IsValid, get_message_iff, retained_value, value_at-set_parsed,
}
use oximqtt.Trie.Paths.{path_eq}

-- A filter without wildcards matches its own topic only.
plain-Reaches : (b : Bool) (f t : Topic) → All IsPlain f → Reaches b f t → f ≡ t
plain-Reaches b [] [] p c = refl
plain-Reaches b [] (r ∷ t) p c = absurd c
plain-Reaches b (multi_wildcard ∷ f) t p c = absurd (ground (arith, p.0))
plain-Reaches b (k ∷ f) [] p c = absurd c
plain-Reaches b (k ∷ f) (r ∷ t) p (inl (e, c)) = rw (e, plain-Reaches false f t p.1 c) refl
plain-Reaches b (k ∷ f) (r ∷ t) p (inr (i, inl (e, q))) =
    absurd (let z = subst IsPlain e p.0 in ground (arith, z))
plain-Reaches b (k ∷ f) (r ∷ t) p (inr (i, inr (e, c))) =
    absurd (let z = subst IsPlain e p.0 in ground (arith, z))

plain-Reaches_self : (b : Bool) (t : Topic) → All IsPlain t → Reaches b t t
plain-Reaches_self b [] p = tt
plain-Reaches_self b (k ∷ t) p = inl (refl, plain-Reaches_self false t p.1)

-- There is a message for the topic that has not expired.
abbrev pub IsRetained : ℕ → Topic → DefaultRetainStorage → Type 0
IsRetained now t st =
    (tv : TimedValue Retain) × (value_at t st.messages ≡ some tv) × (is_expired now tv ≡ false)

-- Where the filter is a topic and finds a message, there is one retained for it.
found-IsRetained :
    (now : ℕ) (name : Bytes) (t : Topic) (st : DefaultRetainStorage) (found : List (Bytes × Retain))
    → IsValid st
    → from_str name ≡ ok t
    → All IsPlain t
    → get_message now name st ≡ ok found
    → has_no_messages found ≡ false
    → IsRetained now t st
found-IsRetained now name t st [] v p plain h e = absurd (ground arith)
found-IsRetained now name t st ((n, m) ∷ found) v p plain h e =
    let (u, tv, a, b, c, d, r) =
      (get_message_iff now name t st n m ((n, m) ∷ found) v p h).0 (Memᴰ.head refl) in
    let q : u ≡ t = sym (plain-Reaches true t u plain r) in (tv, rw q at b, d)

-- And where it finds none, there is none.
missing-IsRetained :
    (now : ℕ) (name : Bytes) (t : Topic) (st : DefaultRetainStorage) (found : List (Bytes × Retain))
    → IsValid st
    → from_str name ≡ ok t
    → All IsPlain t
    → get_message now name st ≡ ok found
    → has_no_messages found ≡ true
    → ¬ IsRetained now t st
missing-IsRetained now name t st ((n, m) ∷ found) v p plain h e r = cc
missing-IsRetained now name t st [] v p plain h e (tv, a, b) = Memᴰ.not-nil (
    (get_message_iff now name t st name tv.inner [] v p h).1
      (t, tv, p, a, refl, b, plain-Reaches_self true t plain))

-- Each message that is set takes one place at most, and none where one was.
set_parsed_sizes :
    (now : ℕ) (t : Topic) (m : Retain) (timeout : Option ℕ) (st : DefaultRetainStorage)
    → IsValid st
    → (values_size (set_parsed now t m timeout st).messages + weight (value_at t st.messages)
        ≤ values_size st.messages + 1)
set_parsed_sizes now t m timeout st v =
    ground (arith, values_size-set_parsed now t m timeout st v.tree)

signed_ltb_lem : (a b : ℕ) → a < 2 ^ 63 → b < 2 ^ 63 → signed_ltb a b ≡ ltb a b
signed_ltb_lem a b h k = ground arith

-- Below the limit there is room for one more.
room_left :
    (cfg : PluginConfig) (st : DefaultRetainStorage)
    → IsValid st
    → 0 < cfg.max_retained_messages
    → cfg.max_retained_messages + 1 < 2 ^ 63
    → values_size st.messages ≤ cfg.max_retained_messages
    → is_full cfg st ≡ false
    → values_size st.messages < cfg.max_retained_messages
room_left cfg st v pos small capped h = ground (
  arith,
  v.counted,
  signed_ltb_lem 0 cfg.max_retained_messages,
  signed_ltb_lem st.retaineds.current cfg.max_retained_messages,
)

-- At the limit there is none.
no_room :
    (cfg : PluginConfig) (st : DefaultRetainStorage)
    → IsValid st
    → cfg.max_retained_messages + 1 < 2 ^ 63
    → values_size st.messages ≤ cfg.max_retained_messages
    → is_full cfg st ≡ true
    → cfg.max_retained_messages ≤ values_size st.messages
no_room cfg st v small capped h = ground (
  arith,
  v.counted,
  signed_ltb_lem 0 cfg.max_retained_messages,
  signed_ltb_lem st.retaineds.current cfg.max_retained_messages,
)

-- The message is not too large, and there is room for one more or its topic has one that has not
-- expired.
abbrev pub IsAccepted : PluginConfig → ℕ → Topic → Retain → DefaultRetainStorage → Type 0
IsAccepted cfg now t m st =
    (length m.payload ≤ cfg.max_payload_size)
    × ((values_size st.messages < cfg.max_retained_messages) ⊎ IsRetained now t st)

-- The branches of `set`: nothing changes, or the message is set and has its place.
set_inv :
    (cfg : PluginConfig) (now : ℕ) (name : Bytes) (t : Topic) (m : Retain) (e : Option ℕ)
    (st st' : DefaultRetainStorage)
    → IsValid st
    → from_str name ≡ ok t
    → All IsPlain t
    → 0 < cfg.max_retained_messages
    → cfg.max_retained_messages + 1 < 2 ^ 63
    → values_size st.messages ≤ cfg.max_retained_messages
    → set cfg now name m e st ≡ ok st'
    → ((¬ IsAccepted cfg now t m st) × (st ≡ st'))
      ⊎ (IsAccepted cfg now t m st
          × (set_parsed now t m (expiry cfg.retained_message_ttl e) st ≡ st')
          × (values_size st'.messages ≤ cfg.max_retained_messages))
unfolding set set_with_timeout
set_inv cfg now name t m e st st' v p plain pos small capped h =
    let timeout = expiry cfg.retained_message_ttl e in
    let stored = set_parsed now t m timeout st in
    let s = set_parsed_sizes now t m timeout st v in
    let w : set_with_timeout now name m timeout st ≡ ok stored = rw (set_with_timeout, p) refl in
    let h₁ = rw (set, w) at h in
    elim (Bool-cases (ltb cfg.max_payload_size (length m.payload))) [
      | inl a ↦ inl (λ k. absurd (let z = k.0 in ground arith), ground (arith, h₁, a))
      | inr a ↦ elim (Bool-cases (is_full cfg st)) [
        | inr b ↦
            let q : stored ≡ st' = ground (arith, h₁, a, b) in
            let r = room_left cfg st v pos small capped b in
            inr ((ground arith, inl r), q, rw (← q) (omega (arith, s, r)))
        | inl b ↦
            let full = no_room cfg st v small capped b in
            elim (Result-cases (get_message now name st)) [
              | inr (x, g) ↦ absurd (ground (arith, h₁, a, b, g))
              | inl (found, g) ↦ elim (Bool-cases (has_no_messages found)) [
                | inl c ↦
                    let none_there = missing-IsRetained now name t st found v p plain g c in
                    inl (
                      λ k. elim k.1 [
                        | inl l ↦ absurd (omega (arith, l, full))
                        | inr r ↦ none_there r
                      ],
                      ground (arith, h₁, a, b, c, g),
                    )
                | inr c ↦
                    let q : stored ≡ st' = ground (arith, h₁, a, b, c, g) in
                    let there = found-IsRetained now name t st found v p plain g c in
                    let r : weight (value_at t st.messages) ≡ 1 = rw there.1 refl in
                    inr ((ground arith, inr there), q, rw (← q) (omega (arith, s, r, capped)))
              ]
            ]
      ]
    ]

-- Where the number of messages is limited and has not passed the limit, `set` for a topic without
-- wildcards keeps it so, and the storage valid. A message is accepted exactly if it is not too large
-- and either fewer messages than the limit are kept or its topic has one that has not expired: then
-- it replaces the one of its topic, or clears it if it has no payload, and every other topic keeps
-- its own. Otherwise nothing changes. A message that has expired and still holds its place does not
-- let its topic be set at the limit.
pub set-capped :
    (cfg : PluginConfig) (now : ℕ) (name : Bytes) (t : Topic) (m : Retain) (e : Option ℕ)
    (st st' : DefaultRetainStorage)
    → IsValid st
    → from_str name ≡ ok t
    → All IsPlain t
    → 0 < cfg.max_retained_messages
    → cfg.max_retained_messages + 1 < 2 ^ 63
    → values_size st.messages ≤ cfg.max_retained_messages
    → set cfg now name m e st ≡ ok st'
    → IsValid st'
      × (values_size st'.messages ≤ cfg.max_retained_messages)
      × (((¬ IsAccepted cfg now t m st) × (st ≡ st'))
          ⊎ (IsAccepted cfg now t m st
              × ((u : Topic)
                  → value_at u st'.messages ≡ (
                      if path_eq t u
                      then retained_value now m (expiry cfg.retained_message_ttl e)
                      else value_at u st.messages))))
unfolding set_with_timeout
set-capped cfg now name t m e st st' v p plain pos small capped h =
    elim (set_inv cfg now name t m e st st' v p plain pos small capped h) [
      | inl (n, q) ↦
          let (a, b) : IsValid st' × (values_size st'.messages ≤ cfg.max_retained_messages) =
            subst (λ x. IsValid x × (values_size x.messages ≤ cfg.max_retained_messages)) q
              (v, capped) in
          (a, b, inl (n, q))
      | inr (n, q, l) ↦
          let timeout = expiry cfg.retained_message_ttl e in
          let w : set_with_timeout now name m timeout st ≡ ok st' =
            rw (set_with_timeout, p) (ap ok q) in
          (
            set_with_timeout-IsValid now name t m timeout st st' v p plain
                (omega (arith, capped, small)) w,
            l,
            inr (
              n,
              λ u.
                  subst
                    (λ x. value_at u x.messages ≡ (
                      if path_eq t u then retained_value now m timeout else value_at u st.messages))
                    q (value_at-set_parsed now t u m timeout st),
            ),
          )
    ]
