-- ===== src/Acl/Hooks/Clients.antt =====
-- The rules of oximqtt/src/builtins/acl.rs while clients come and go.
use oximqtt.Base.{
  ◌≡◌, refl, ◌≢◌, Bool, true, false, Option, some, List, [], ◌∷◌, All, map, ok, ap₂, ap, ◌∙◌,
}
use mathlib.Core.List.{Memᴰ}
use mathlib.Core.List.Memᴰ
use oximqtt.Base.Bytes.{Bytes}
use oximqtt.Topic.{Topic, from_str}
use oximqtt.Acl.{Topics, Rule, Client, client_order}
use oximqtt.Acl.Hooks.{expand, build_filters, client_connected, forget_filter, client_disconnected}
use oximqtt.Acl.Hooks.Removed.{
  holds, Reaches-self, remove_topic-others, remove_topic-none, remove_topic-takes,
}

-- Whether the client stands at a filter of a rule.
abbrev pub stands : Bytes → Topic → Rule → Bool
stands client g r = holds (some client) g r.topics.tree

module _ (client : Bytes) where
  forget_filter-others :
      (text : Bytes) (v : Option Bytes) (g : Topic) (rs : List Rule)
      → v ≢ some client
      → map (λ r. holds v g r.topics.tree) (forget_filter client text rs)
        ≡ map (λ r. holds v g r.topics.tree) rs
  unfolding forget_filter
  forget_filter-others text v g [] n = refl
  forget_filter-others text v g (r ∷ rs) n =
      ap₂ ◌∷◌ (remove_topic-others client text r.topics v g n) (forget_filter-others text v g rs n)

  forget_filter-none :
      (text : Bytes) (g : Topic) (rs : List Rule)
      → All (λ r. stands client g r ≡ false) rs
      → All (λ r. stands client g r ≡ false) (forget_filter client text rs)
  unfolding forget_filter
  forget_filter-none text g [] a = tt
  forget_filter-none text g (r ∷ rs) a =
      (remove_topic-none client text r.topics g a.0, forget_filter-none text g rs a.1)

  forget_filter-takes :
      (text : Bytes) (f : Topic) (rs : List Rule)
      → from_str text ≡ ok f
      → All (λ r. stands client f r ≡ false) (forget_filter client text rs)
  unfolding forget_filter
  forget_filter-takes text f [] e = tt
  forget_filter-takes text f (r ∷ rs) e = (
    remove_topic-takes client text r.topics f f e (Reaches-self true f),
    forget_filter-takes text f rs e,
  )

  disconnected-none :
      (filters : List Bytes) (g : Topic) (rs : List Rule)
      → All (λ r. stands client g r ≡ false) rs
      → All (λ r. stands client g r ≡ false) (client_disconnected client filters rs)
  unfolding client_disconnected
  disconnected-none [] g rs a = a
  disconnected-none (t ∷ ts) g rs a =
      disconnected-none ts g (forget_filter client t rs) (forget_filter-none t g rs a)

  disconnected-takes :
      (filters : List Bytes) (text : Bytes) (f : Topic) (rs : List Rule)
      → Memᴰ text filters
      → from_str text ≡ ok f
      → All (λ r. stands client f r ≡ false) (client_disconnected client filters rs)
  unfolding client_disconnected
  disconnected-takes [] text f rs m e = absurd (Memᴰ.not-nil m)
  disconnected-takes (t ∷ ts) text f rs (Memᴰ.head q) e =
      disconnected-none ts f (forget_filter client t rs) (forget_filter-takes t f rs (rw q at e))
  disconnected-takes (t ∷ ts) text f rs (Memᴰ.tail m) e =
      disconnected-takes ts text f (forget_filter client t rs) m e

  -- A client that goes takes nothing from the filters but its own value: what stands there for every
  -- client, or for another one, stays.
  pub client_disconnected-others :
      (filters : List Bytes) (v : Option Bytes) (g : Topic) (rs : List Rule)
      → v ≢ some client
      → map (λ r. holds v g r.topics.tree) (client_disconnected client filters rs)
        ≡ map (λ r. holds v g r.topics.tree) rs
  unfolding client_disconnected
  client_disconnected-others [] v g rs n = refl
  client_disconnected-others (t ∷ ts) v g rs n =
      client_disconnected-others ts v g (forget_filter client t rs) n
      ∙ forget_filter-others t v g rs n

-- The session remembers the filters made of every placeholder.
build_filters-remembers :
    (c : Client) (phs : List Bytes) (t : Topics) (ph : Bytes)
    → Memᴰ ph phs
    → Memᴰ (expand c ph) (build_filters c phs t).1
unfolding build_filters
build_filters-remembers c [] t ph m = absurd (Memᴰ.not-nil m)
build_filters-remembers c (p ∷ phs) t ph (Memᴰ.head e) = Memᴰ.head (ap (expand c) e)
build_filters-remembers c (p ∷ phs) t ph (Memᴰ.tail m) =
    Memᴰ.tail (build_filters-remembers c phs _ ph m)

connected-keeps :
    (c : Client) (rs : List Rule) (cache : List Bytes) (text : Bytes)
    → Memᴰ text cache
    → Memᴰ text (client_connected c rs cache).1
unfolding client_connected
connected-keeps c [] cache text m = m
connected-keeps c (r ∷ rs) cache text m = connected-keeps c rs _ text (Memᴰ.append_left _ m)

connected-remembers :
    (c : Client) (rs : List Rule) (cache : List Bytes) (r : Rule) (ph : Bytes)
    → Memᴰ r rs
    → Memᴰ ph r.topics.placeholders
    → Memᴰ (expand c ph) (client_connected c rs cache).1
unfolding client_connected
connected-remembers c [] cache r ph m k = absurd (Memᴰ.not-nil m)
connected-remembers c (x ∷ rs) cache r ph (Memᴰ.head e) k =
    connected-keeps c rs _ (expand c ph) (
      Memᴰ.append_right _ (build_filters-remembers c x.topics.placeholders x.topics ph (rw e at k)))
connected-remembers c (x ∷ rs) cache r ph (Memᴰ.tail m) k = connected-remembers c rs _ r ph m k

-- A client that comes and goes is left at no filter that a placeholder of a rule makes for it.
pub connected-disconnected :
    (c : Client) (rs : List Rule) (r : Rule) (ph : Bytes) (f : Topic)
    → Memᴰ r rs
    → Memᴰ ph r.topics.placeholders
    → from_str (expand c ph) ≡ ok f
    → let (rs', cache) = client_connected c rs [] in
      All (λ r. stands c.client_id f r ≡ false) (client_disconnected c.client_id cache rs')
connected-disconnected c rs r ph f m k e =
    let (rs', cache) = client_connected c rs [] in
    disconnected-takes c.client_id cache (expand c ph) f rs' (connected-remembers c rs [] r ph m k)
      e
