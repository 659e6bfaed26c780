-- ===== src/Acl/Auth/Applies.antt =====
-- Which messages a rule of oximqtt/src/acl.rs applies to, and what its answers are.
use oximqtt.Base.{
  ◌==◌, ==_iff, ap, sym, subst, ◌∙◌, ◌≡◌, refl, ◌⊎◌, inl, inr, ◌↔◌, Bool, true, false, Option, none,
  some, List, [], ◌∷◌, arith, Bool-cases, Option-cases,
}
use mathlib.Core.List.{Memᴰ}
use mathlib.Core.List.Memᴰ
use oximqtt.Base.Bytes.{Bytes, bytes_eq_iff}
use oximqtt.Codec.Qos.{QoS, at_most_once, at_least_once, exactly_once, qos_value}
use oximqtt.Codec.V3.{Publish}
use oximqtt.Topic.{Topic}
use oximqtt.Topic.Match.{matches_str}
use oximqtt.Types.{PublishAckReason, PublishAclResult}
use oximqtt.Acl.Auth.{
  Permission, allow, deny, Action, all, publish, subscribe, RuleTopic, Rule, ReturnType,
  publish_acl_result, has_qos, takes_qos, takes_publish, is_match, publish_hit, publish_allow_hit,
  publish_deny_hit, publish_rule_hit, bool_eq,
}

-- The answers: no further handler is asked.
abbrev pub IsAllowed : ReturnType → Type 0
IsAllowed x =
    (r : PublishAclResult) × (x ≡ (false, some (publish_acl_result r)))
    × (r.reason_code ≡ PublishAckReason.success)
    × (r.disconnect ≡ false)

abbrev pub IsRejected : Bool → ReturnType → Type 0
IsRejected disconnect x =
    (r : PublishAclResult) × (x ≡ (false, some (publish_acl_result r)))
    × (r.reason_code ≡ PublishAckReason.not_authorized)
    × (r.disconnect ≡ disconnect)

-- The rule names no quality of service, or this one.
abbrev HasQos : QoS → Option (List QoS) → Type 0
HasQos q o = (o ≡ none) ⊎ ((qs : List QoS) × (o ≡ some qs) × Memᴰ q qs)

-- The rule is for this text alone, or its filter matches it.
abbrev IsOn : Bytes → RuleTopic → Type 0
IsOn topic t =
    (t.eq_topic_filter ≡ some topic)
    ⊎ ((t.eq_topic_filter ≡ none)
        × ((f : Topic) × (t.topic_filter ≡ some f) × (matches_str f topic ≡ true)))

abbrev IsAbout : Publish → Rule → Type 0
IsAbout p r = ((r.action ≡ publish) ⊎ (r.action ≡ all)) × HasQos p.qos r.qos × IsOn p.topic r.topic

-- A rule that allows without retaining lets no retained message through; one that denies, and says
-- something of retaining, denies only the messages that are as it says.
abbrev FitsRetain : Publish → Rule → Type 0
FitsRetain p r =
    ((r.permission ≡ allow) × (r.retain ≡ some false → p.retain ≡ false))
    ⊎ ((r.permission ≡ deny) × ((b : Bool) → r.retain ≡ some b → p.retain ≡ b))

-- The rule applies to the message.
abbrev pub Applies : Publish → Rule → Type 0
Applies p r = IsAbout p r × FitsRetain p r

qos_value-injective : (a b : QoS) → qos_value a ≡ qos_value b → a ≡ b
qos_value-injective at_most_once at_most_once h = refl
qos_value-injective at_least_once at_least_once h = refl
qos_value-injective exactly_once exactly_once h = refl
qos_value-injective at_most_once at_least_once h = absurd (omega arith)
qos_value-injective at_most_once exactly_once h = absurd (omega arith)
qos_value-injective at_least_once at_most_once h = absurd (omega arith)
qos_value-injective at_least_once exactly_once h = absurd (omega arith)
qos_value-injective exactly_once at_most_once h = absurd (omega arith)
qos_value-injective exactly_once at_least_once h = absurd (omega arith)

has_qos_sound : (q : QoS) (qs : List QoS) → has_qos q qs ≡ true → Memᴰ q qs
has_qos_sound q [] h = cc
has_qos_sound q (r ∷ qs) h = elim (Bool-cases (qos_value r == qos_value q)) [
  | inl b ↦ Memᴰ.head (sym (qos_value-injective r q ((==_iff (qos_value r) (qos_value q)).0 b)))
  | inr b ↦ Memᴰ.tail (has_qos_sound q qs (ground arith))
]

has_qos_complete : (q : QoS) (qs : List QoS) → Memᴰ q qs → has_qos q qs ≡ true
has_qos_complete q [] m = absurd (Memᴰ.not-nil m)
has_qos_complete q (r ∷ qs) (Memᴰ.head e) =
    let b = (==_iff (qos_value r) (qos_value q)).1 (ap qos_value (sym e)) in ground arith
has_qos_complete q (r ∷ qs) (Memᴰ.tail m) = ground (arith, has_qos_complete q qs m)

takes_qos_iff : (q : QoS) (o : Option (List QoS)) → (takes_qos q o ≡ true) ↔ HasQos q o
takes_qos_iff q none = (λ h. inl refl, λ h. refl)
takes_qos_iff q (some qs) = (
  λ h. inr (qs, refl, has_qos_sound q qs h),
  λ h. elim h [
    | inl e ↦ cc
    | inr (rs, e, m) ↦
        has_qos_complete q qs
          (subst (λ o. elim o [ none ↦ Memᴰ q qs | some xs ↦ Memᴰ q xs ]) (sym e) m)
  ],
)

takes_publish_iff : (a : Action) → (takes_publish a ≡ true) ↔ ((a ≡ publish) ⊎ (a ≡ all))
takes_publish_iff all = (λ h. inr refl, λ h. refl)
takes_publish_iff publish = (λ h. inl refl, λ h. refl)
takes_publish_iff subscribe = (λ h. cc, λ h. elim h [ inl e ↦ cc | inr e ↦ cc ])

is_match_iff_IsOn : (topic : Bytes) (t : RuleTopic) → (is_match topic t ≡ true) ↔ IsOn topic t
unfolding is_match
is_match_iff_IsOn topic t = elim (Option-cases t.eq_topic_filter) [
  | inr (f, e) ↦ (
    λ h. inl (e ∙ ap some ((bytes_eq_iff f topic).0 (rw (is_match, e) at h))),
    λ h. elim h [
      | inl i ↦
          let k = bytes_eq_iff f topic in
          let j : f ≡ topic = ground arith in rw (is_match, e) (k.1 j)
      | inr (i, j) ↦ absurd (ground arith)
    ],
  )
  | inl e ↦ elim (Option-cases t.topic_filter) [
    | inr (f, g) ↦ (
      λ h. inr (e, (f, g, rw (is_match, e, g) at h)),
      λ h. elim h [
        | inl i ↦ absurd (ground arith)
        | inr (i, (f', g', m)) ↦ let j : f ≡ f' = ground arith in rw (is_match, e, g, j) m
      ],
    )
    | inl g ↦ (
      λ h. let x = rw (is_match, e, g) at h in cc,
      λ h. elim h [ inl i ↦ absurd (ground arith) | inr (i, (f', g', m)) ↦ absurd (ground arith) ],
    )
  ]
]

publish_hit_iff : (p : Publish) (r : Rule) → (publish_hit p r ≡ true) ↔ IsAbout p r
unfolding publish_hit
publish_hit_iff p r =
    let a = takes_publish_iff r.action in
    let b = takes_qos_iff p.qos r.qos in
    let c = is_match_iff_IsOn p.topic r.topic in
    elim (Bool-cases (takes_publish r.action)) [
      | inr x ↦ (λ h. let z = rw (publish_hit, x) at h in cc, λ h. let z = a.1 h.0 in cc)
      | inl x ↦ elim (Bool-cases (takes_qos p.qos r.qos)) [
        | inr y ↦ (λ h. let z = rw (publish_hit, x, y) at h in cc, λ h. let z = b.1 h.1 in cc)
        | inl y ↦ (
          λ h. (a.0 x, b.0 y, c.0 (rw (publish_hit, x, y) at h)),
          λ h. rw (publish_hit, x, y) (c.1 h.2),
        )
      ]
    ]

allow_hit_iff :
    (p : Publish) (r : Rule)
    → (publish_allow_hit p r ≡ true)
      ↔ ((publish_hit p r ≡ true) × (r.retain ≡ some false → p.retain ≡ false))
unfolding publish_allow_hit publish_hit
allow_hit_iff p r = elim (Option-cases r.retain) [
  | inl e ↦ (
    λ h. (rw (publish_allow_hit, e) at h, λ f. absurd (ground arith)),
    λ h. rw (publish_allow_hit, e) h.0,
  )
  | inr (b, e) ↦ go b e
]
  where
    go :
        (b : Bool)
        → r.retain ≡ some b
        → (publish_allow_hit p r ≡ true)
          ↔ ((publish_hit p r ≡ true) × (r.retain ≡ some false → p.retain ≡ false))
    go true e = (
      λ h. (rw (publish_allow_hit, e) at h, λ f. absurd (ground arith)),
      λ h. rw (publish_allow_hit, e) h.0,
    )
    go false e = elim (Bool-cases p.retain) [
      | inl q ↦ (
        λ h. absurd (let z = rw (publish_allow_hit, e, q) at h in ground arith),
        λ h. let z = h.1 e in absurd (ground arith),
      )
      | inr q ↦
          (λ h. (rw (publish_allow_hit, e, q) at h, λ f. q), λ h. rw (publish_allow_hit, e, q) h.0)
    ]

bool_eq_iff : (a b : Bool) → (bool_eq a b ≡ true) ↔ (b ≡ a)
bool_eq_iff true true = (λ h. refl, λ h. refl)
bool_eq_iff true false = (λ h. h, λ h. h)
bool_eq_iff false true = ground arith
bool_eq_iff false false = (λ h. refl, λ h. refl)

deny_hit_iff :
    (p : Publish) (r : Rule)
    → (publish_deny_hit p r ≡ true)
      ↔ ((publish_hit p r ≡ true) × ((b : Bool) → r.retain ≡ some b → p.retain ≡ b))
unfolding publish_deny_hit
deny_hit_iff p r = elim (Option-cases r.retain) [
  | inl e ↦ (
    λ h. (rw (publish_deny_hit, e) at h, λ b f. absurd (ground arith)),
    λ h. rw (publish_deny_hit, e) h.0,
  )
  | inr (b, e) ↦ elim (Bool-cases (bool_eq b p.retain)) [
    | inl q ↦ (
      λ h. (rw (publish_deny_hit, e, q) at h, λ c f. (bool_eq_iff b p.retain).0 q ∙ ground arith),
      λ h. rw (publish_deny_hit, e, q) h.0,
    )
    | inr q ↦ (
      λ h. absurd (let z = rw (publish_deny_hit, e, q) at h in ground arith),
      λ h. absurd (let z = (bool_eq_iff b p.retain).1 (h.1 b e) in ground arith),
    )
  ]
]

-- The test of a rule says whether it applies.
pub publish_rule_hit_iff : (p : Publish) (r : Rule) → (publish_rule_hit p r ≡ true) ↔ Applies p r
unfolding publish_allow_hit publish_hit publish_deny_hit
publish_rule_hit_iff p r = go r.permission refl
  where
    i : (publish_hit p r ≡ true) ↔ IsAbout p r
    i = publish_hit_iff p r

    go : (m : Permission) → r.permission ≡ m → (publish_rule_hit p r ≡ true) ↔ Applies p r
    go allow e =
        let k = allow_hit_iff p r in
        (
          λ h. let (x, y) = k.0 (rw e at h) in (i.0 x, inl (e, y)),
          λ h. rw e (k.1 (i.1 h.0, elim h.1 [ inl y ↦ y.1 | inr y ↦ absurd (ground arith) ])),
        )
    go deny e =
        let k = deny_hit_iff p r in
        (
          λ h. let (x, y) = k.0 (rw e at h) in (i.0 x, inr (e, y)),
          λ h. rw e (k.1 (i.1 h.0, elim h.1 [ inl y ↦ absurd (ground arith) | inr y ↦ y.1 ])),
        )
