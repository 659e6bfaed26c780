-- ===== src/Inflight/Removed.antt =====
-- `add` and `remove` of the window `InInflight` of oximqtt/src/inflight.rs, one after the other.
use oximqtt.Base.{
  ℕ, ◌≡◌, refl, true, false, not, ◌&&◌, ◌||◌, List, [], ◌∷◌, ok, err, arith, ◌==◌, ==_iff, ==_self,
  ltb, Bool-cases, inl, inr, ◌∙◌,
}
use oximqtt.Base.OrdSet
use oximqtt.Base.OrdSet.{Ord, insert_sorted, erase, contains-erase, contains-insert_sorted}
use oximqtt.Codec.Qos.{QoS, at_least_once}
use oximqtt.Inflight.{
  number_order, InInflight, add, contains, remove, is_full, inflight_window_full,
}
use oximqtt.Inflight.Window.{erase-absent}

-- After `remove` the window has what it had but the identifier.
pub contains-remove :
    (pid other : ℕ) (w : InInflight)
    → contains other (remove pid w).1 ≡ (not (other == pid) && contains other w)
unfolding contains remove OrdSet.remove
contains-remove pid other w = ground (arith, contains-erase pid other w.cached, ==_iff other pid)

-- A window with room takes an identifier that it does not have.
pub add-room :
    (pid : ℕ) (qos : QoS) (w : InInflight)
    → is_full w ≡ false
    → contains pid w ≡ false
    → (add pid qos w).0 ≡ ok true
unfolding add is_full contains OrdSet.insert
add-room pid qos w f c = rw (f, c) refl

-- The window has it afterwards, and otherwise what it had.
pub contains-add :
    (pid other : ℕ) (qos : QoS) (w : InInflight)
    → is_full w ≡ false
    → contains pid w ≡ false
    → contains other (add pid qos w).1 ≡ (other == pid || contains other w)
unfolding add is_full contains OrdSet.insert
contains-add pid other qos w f c = rw (f, c) (contains-insert_sorted pid other w.cached)

erase-insert_sorted :
    (a : ℕ) (xs : List ℕ) → OrdSet.contains a xs ≡ false → erase a (insert_sorted a xs) ≡ xs
unfolding erase insert_sorted OrdSet.contains
erase-insert_sorted a [] h = rw (==_self a) refl
erase-insert_sorted a (x ∷ xs) h = elim (Bool-cases (ltb a x)) [
  | inl l ↦ rw (insert_sorted, l, erase, ==_self a) (erase-absent a (x ∷ xs) h)
  | inr l ↦ ground (arith, erase-insert_sorted a xs)
]

-- What `add` let in, `remove` takes out again, and the window is as before.
pub remove-add :
    (pid : ℕ) (qos : QoS) (w : InInflight)
    → is_full w ≡ false
    → contains pid w ≡ false
    → (remove pid (add pid qos w).1).1 ≡ w
unfolding add is_full contains remove OrdSet.insert OrdSet.remove
remove-add pid qos w f c =
    let e = erase-insert_sorted pid w.cached c in
    let m : OrdSet.contains pid (insert_sorted pid w.cached) ≡ true =
      contains-insert_sorted pid pid w.cached ∙ ground (arith, ==_self pid) in
    rw (f, add, OrdSet.insert, c, remove, OrdSet.remove, m, e) (ground arith)

pub add-full :
    (pid : ℕ) (qos : QoS) (w : InInflight)
    → is_full w ≡ true
    → add pid qos w ≡ (err inflight_window_full, w)
unfolding add is_full
add-full pid qos w f = rw f refl

-- An identifier that is in the window is not refused below QoS 2.
pub add-known :
    (pid : ℕ) (w : InInflight)
    → is_full w ≡ false
    → contains pid w ≡ true
    → add pid at_least_once w ≡ (ok false, w)
unfolding add is_full contains OrdSet.insert
add-known pid w f c = rw (f, c) refl
