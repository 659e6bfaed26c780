-- ===== src/Acl/Examples.antt =====
-- The theorems on the access rules of oximqtt/src/acl.rs and oximqtt/src/builtins/acl.rs at the
-- rules and clients of the tests.
use oximqtt.Base.{◌≡◌, refl, ◌⊎◌, ◌↔◌, inl, true, false, none, some, [], ◌∷◌, All, map}
use mathlib.Core.List.{Memᴰ}
use oximqtt.Base.Bytes.{codes}
use oximqtt.Acl.First.{DecidedBy}
use oximqtt.Acl.Auth.Applies.{IsAllowed, IsRejected, Applies}
use oximqtt.Acl.Auth.{ReturnType, publish_acl}
use oximqtt.Acl.Auth.Decisions
use oximqtt.Acl.Auth.Decisions.{publish_acl-Decides}
use oximqtt.Acl
use oximqtt.Acl.{has_text, is_match, client_order, client_eq_iff}
use oximqtt.Acl.Hooks.{build_filters, client_connected, client_disconnected, publish_check_acl}
use oximqtt.Acl.Hooks.Matches.{Covers, is_match_iff}
use oximqtt.Acl.Hooks.Decisions.{IsAnswer, publish_check_acl-Decides}
use oximqtt.Acl.Hooks.Applies.{AppliesPublish, IsRefused}
use oximqtt.Acl.Hooks.Removed.{holds}
use oximqtt.Acl.Hooks.Clients.{stands, connected-disconnected, client_disconnected-others}
use oximqtt.Acl.Hooks.Opened.{build_filters-covers}
use oximqtt.Acl.Tests.{acl, ann, bob, own, rules, after_ann, message, info, own_filter}

publish_acl-Decides_example :
    ((info.superuser ≡ true)
      × ((x : ReturnType) × (publish_acl message true info ≡ some x) × IsAllowed x))
    ⊎ ((info.superuser ≡ false)
        × DecidedBy
            (Applies message)
            (Decisions.IsAnswer true)
            (λ o. o ≡ none)
            info.rules
            (publish_acl message true info))
publish_acl-Decides_example = publish_acl-Decides message true info

publish_check_acl-Decides_example :
    (IsRefused none
      × (publish_check_acl true bob (codes "dev/ann/x") after_ann none ≡ (false, none)))
    ⊎ ((¬ IsRefused none)
        × DecidedBy
            (AppliesPublish bob (codes "dev/ann/x"))
            (IsAnswer true)
            (IsRejected true)
            after_ann
            (publish_check_acl true bob (codes "dev/ann/x") after_ann none))
publish_check_acl-Decides_example =
    publish_check_acl-Decides true bob (codes "dev/ann/x") after_ann none

is_match_iff_example : (is_match own_filter (codes "dev/ann/#") (codes "ann") own ≡ true) ↔ (
    (own.all ≡ true)
    ⊎ ((has_text (codes "dev/ann/#") own.eqs ≡ true) ⊎ Covers own.tree own_filter (codes "ann")))
is_match_iff_example = is_match_iff own_filter (codes "dev/ann/#") (codes "ann") own

build_filters-covers_example :
    is_match own_filter (codes "dev/ann/#") (codes "ann") (build_filters ann own.placeholders own).0
    ≡ true
unfolding acl
build_filters-covers_example =
    build_filters-covers ann own.placeholders own (codes "dev/%c/#") (codes "dev/ann/#") own_filter
      own_filter (Memᴰ.head refl) refl (inl (refl, inl (refl, inl (refl, tt))))

connected-disconnected_example :
    let (rs', cache) = client_connected ann rules [] in
    All
      (λ r. stands (codes "ann") own_filter r ≡ false)
      (client_disconnected (codes "ann") cache rs')
unfolding acl
connected-disconnected_example =
    connected-disconnected ann rules
      record { access = Acl.allow; users = Acl.all ∷ []; control = Acl.pubsub; topics = own }
      (codes "dev/%c/#") own_filter (Memᴰ.head refl) (Memᴰ.head refl) refl

client_disconnected-others_example :
    map
      (λ r. holds (some (codes "ann")) own_filter r.topics.tree)
      (client_disconnected (codes "bob") (codes "dev/#" ∷ []) after_ann)
    ≡ map (λ r. holds (some (codes "ann")) own_filter r.topics.tree) after_ann
unfolding acl
client_disconnected-others_example =
    client_disconnected-others (codes "bob") (codes "dev/#" ∷ []) (some (codes "ann")) own_filter
      after_ann (λ e. let x : false ≡ true = (client_eq_iff _ _).1 e in cc)
