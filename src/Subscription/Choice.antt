-- ===== src/Subscription/Choice.antt =====
-- `DefaultSharedSubscription` of oximqtt/src/subscribe.rs: who of a group gets a message.
use native.Mathlib.Nat.{mod-lt, mod-eq_of_lt, add-mod_right}
use oximqtt.Base.{
  le_or_lt, ℕ, zero, suc, ◌+◌, ◌-◌, ◌%◌, ◌^◌, ◌<◌, ◌≡◌, refl, sym, ◌∙◌, ap, inl, inr, Bool, true,
  false, Option, none, some, List, [], ◌∷◌, length, get_elem?, arith, if◌then◌else◌, Bool-cases,
  Option-cases,
}

-- `Option<IsOnline>::unwrap_or(false)`, which is also `matches!(.., Some(true))`.
abbrev pub is_online : Option Bool → Bool
is_online none = false
is_online (some b) = b

-- The flag of the candidate at an index.
abbrev pub online_at : List (Option Bool) → ℕ → Bool
online_at ncs i = elim (get_elem? ncs i) [ none ↦ false | some o ↦ is_online o ]

-- The loop of `choice` from its round `i` on, with the rounds that are left.
unfoldable pub choice_loop : List (Option Bool) → ℕ → ℕ → ℕ → Option ℕ
choice_loop ncs start i zero = none
choice_loop ncs start i (suc n) =
    let rest = choice_loop ncs start (i + 1) n in
    let idx = (start + i) % length ncs in if online_at ncs idx then some idx else rest

-- `DefaultSharedSubscription::choice`: of the candidates it reads only whether they are online.
-- `SHARED_SUB_SEQ` is passed on; `fetch_add` wraps.
unfoldable pub choice : List (Option Bool) → ℕ → Option (ℕ × Bool) × ℕ
choice [] seq = (none, seq)
choice (c ∷ cs) seq =
    let ncs = c ∷ cs in
    let start = seq % length ncs in
    elim (choice_loop ncs start 0 (length ncs)) [
      | some idx ↦ (some (idx, true), (seq + 1) % 2 ^ 64)
      | none ↦ (some (start, online_at ncs start), (seq + 1) % 2 ^ 64)
    ]

loop_sound :
    (ncs : List (Option Bool)) (start i n idx : ℕ)
    → choice_loop ncs start i n ≡ some idx
    → (j : ℕ) × (idx ≡ (start + j) % length ncs) × (online_at ncs idx ≡ true)
unfolding choice_loop
loop_sound ncs start i zero idx e = ground arith
loop_sound ncs start i (suc n) idx e =
    elim (Bool-cases (online_at ncs ((start + i) % length ncs))) [
      | inl b ↦
          let q : (start + i) % length ncs ≡ idx = ground arith in
          (i, sym q, ap (online_at ncs) (sym q) ∙ b)
      | inr b ↦ loop_sound ncs start (i + 1) n idx (ground arith)
    ]

loop_finds :
    (ncs : List (Option Bool)) (start i n k : ℕ)
    → k < n
    → online_at ncs ((start + (i + k)) % length ncs) ≡ true
    → (idx : ℕ) × (choice_loop ncs start i n ≡ some idx)
unfolding choice_loop
loop_finds ncs start i zero k h e = absurd (omega arith)
loop_finds ncs start i (suc n) zero h e =
    let q : i + 0 ≡ i = omega arith in
    let b : online_at ncs ((start + i) % length ncs) ≡ true =
      ap (λ (x : ℕ). online_at ncs ((start + x) % length ncs)) (sym q) ∙ e in
    ((start + i) % length ncs, ground arith)
loop_finds ncs start i (suc n) (suc k) h e =
    elim (Bool-cases (online_at ncs ((start + i) % length ncs))) [
      | inl b ↦ ((start + i) % length ncs, ground arith)
      | inr b ↦
          let q : i + suc k ≡ i + 1 + k = omega arith in
          let (idx, f) =
            loop_finds ncs start (i + 1) n k (omega arith)
              (ap (λ (x : ℕ). online_at ncs ((start + x) % length ncs)) (sym q) ∙ e) in
          (idx, ground arith)
    ]

-- Where the search finds one, and where it finds none.
choice-found :
    (c : Option Bool) (cs : List (Option Bool)) (seq idx : ℕ)
    → choice_loop (c ∷ cs) (seq % length (c ∷ cs)) 0 (length (c ∷ cs)) ≡ some idx
    → (choice (c ∷ cs) seq).0 ≡ some (idx, true)
unfolding choice
choice-found c cs seq idx e = rw (choice, e) refl

choice-none :
    (c : Option Bool) (cs : List (Option Bool)) (seq : ℕ)
    → choice_loop (c ∷ cs) (seq % length (c ∷ cs)) 0 (length (c ∷ cs)) ≡ none
    → (choice (c ∷ cs) seq).0
      ≡ some (seq % length (c ∷ cs), online_at (c ∷ cs) (seq % length (c ∷ cs)))
unfolding choice
choice-none c cs seq e = rw (choice, e) refl

-- `choice` gives an index of a candidate, with whether that one is online, if there is a candidate.
pub choice-in_range :
    (c : Option Bool) (cs : List (Option Bool)) (seq : ℕ)
    → (i : ℕ) × ((choice (c ∷ cs) seq).0 ≡ some (i, online_at (c ∷ cs) i)) × (i < length (c ∷ cs))
choice-in_range c cs seq =
    let len = length (c ∷ cs) in
    let start = seq % len in
    let pos : 0 < len = omega arith in
    elim (Option-cases (choice_loop (c ∷ cs) start 0 len)) [
      | inl e ↦ (start, choice-none c cs seq e, mod-lt seq pos)
      | inr (idx, e) ↦
          let (j, q, b) = loop_sound (c ∷ cs) start 0 len idx e in
          (idx, rw b (choice-found c cs seq idx e), rw q (mod-lt (start + j) pos))
    ]

-- The round in which the search from `start` comes by an index.
round_of :
    (len start j : ℕ) → start < len → j < len → (k : ℕ) × (k < len) × ((start + (0 + k)) % len ≡ j)
round_of len start j h e = elim (le_or_lt start j) [
  | inl g ↦
      let q : start + (0 + (j - start)) ≡ j = omega arith in
      (j - start, omega arith, rw q (mod-eq_of_lt e))
  | inr g ↦
      let q : start + (0 + (j + len - start)) ≡ j + len = omega arith in
      (j + len - start, omega arith, rw q (add-mod_right j len ∙ mod-eq_of_lt e))
]

-- It prefers the candidates that are online: if one is, it gives such a one.
pub choice-online :
    (ncs : List (Option Bool)) (seq j : ℕ)
    → j < length ncs
    → online_at ncs j ≡ true
    → (i : ℕ) × ((choice ncs seq).0 ≡ some (i, true)) × (online_at ncs i ≡ true)
choice-online [] seq j h e = absurd (omega arith)
choice-online (c ∷ cs) seq j h e =
    let len = length (c ∷ cs) in
    let start = seq % len in
    let (k, l, q) = round_of len start j (mod-lt seq (omega arith)) h in
    let (idx, f) = loop_finds (c ∷ cs) start 0 len k l (ap (online_at (c ∷ cs)) q ∙ e) in
    let (i, p, b) = loop_sound (c ∷ cs) start 0 len idx f in (idx, choice-found c cs seq idx f, b)
