-- ===== src/Session/Outbound/Tracked.antt =====
-- The outbound window of oximqtt/src/session.rs against what the session has done.
use oximqtt.Base.{
  ℕ, ◌<◌, ◌≡◌, refl, Bool, true, false, Option, none, some, List, [], ◌∷◌, if◌then◌else◌, ◌==◌,
  ==_iff, arith, Bool-cases, Option-cases, ◌⊎◌, inl, inr, sym, ◌∙◌, ap,
}
use oximqtt.Session.{Publish}
use oximqtt.Session.Outbound.{Effect, sent, acked, timed_out, rereleased, moment_status}
use oximqtt.Session.Outbound.Window.{
  OutInflightMessage, DequeMap, OutInflight, MomentStatus, push_back, remove, update_status,
  pop_front, pop_front_timeout, front_timeout, is_some, with_status,
}

abbrev pub has_id : ℕ → Publish → Bool
has_id k p = elim p.inner.packet_id [ none ↦ false | some j ↦ j == k ]

-- What an effect says of an identifier: that a message waits for its acknowledgement from there on,
-- that none does, or nothing.
abbrev pub says : ℕ → Effect → Option Bool
says k (sent p) =
    if is_some (moment_status p.inner.qos) then (if has_id k p then some true else none) else none
says k (rereleased m) = if has_id k m.publish then some true else none
says k (acked j m) = if j == k then some false else none
says k (timed_out m) = if has_id k m.publish then some false else none
says k _ = none

-- Whether the last thing a session did about an identifier was to send a message at it.
unfoldable pub is_waiting : ℕ → List Effect → Bool
is_waiting k [] = false
is_waiting k (e ∷ es) = elim (says k e) [ none ↦ is_waiting k es | some b ↦ b ]

abbrev id_of : Option OutInflightMessage → Option ℕ
id_of none = none
id_of (some m) = m.publish.inner.packet_id

module _ {Q : Type 0} (d : DequeMap Q) where
  -- The window holds a message at exactly the identifiers that wait for an acknowledgement, each its
  -- own, and the counter shows how many.
  pub record IsTracked (w : OutInflight Q) (trace : List Effect) : Type 0 where
    pub holds : (k : ℕ) → is_some (d.get k w.queues) ≡ is_waiting k trace
    pub keyed :
        (k : ℕ) (m : OutInflightMessage)
        → d.get k w.queues ≡ some m
        → m.publish.inner.packet_id ≡ some k
    pub counted : w.out_inflights ≡ d.len w.queues
    pub wraps : w.next < 65_536

  module _ (k : ℕ) (w w' : OutInflight Q) (e : Effect) (es : List Effect) where
    -- A message enters the window, at the identifier that it has.
    entered :
        (m : OutInflightMessage)
        → m.publish.inner.packet_id ≡ some k
        → ((j : ℕ) → d.get j w'.queues ≡ (if k == j then some m else d.get j w.queues))
        → ((j : ℕ) → says j e ≡ (if k == j then some true else none))
        → w'.out_inflights ≡ d.len w'.queues
        → w'.next ≡ w.next
        → IsTracked w es
        → IsTracked w' (e ∷ es)
    unfolding is_waiting
    entered m i g t c x h = record {
      holds = λ j. let a = h.holds j in let b = g j in let u = t j in ground arith;
      keyed = λ j n f. let a = h.keyed j n in let b = g j in ground (arith, ==_iff k j);
      counted = c;
      wraps = let a = h.wraps in omega arith;
    }

    -- A message leaves the window.
    left :
        ((j : ℕ) → d.get j w'.queues ≡ (if k == j then none else d.get j w.queues))
        → ((j : ℕ) → says j e ≡ (if k == j then some false else none))
        → w'.out_inflights ≡ d.len w'.queues
        → w'.next ≡ w.next
        → IsTracked w es
        → IsTracked w' (e ∷ es)
    unfolding is_waiting
    left g t c x h = record {
      holds = λ j. let a = h.holds j in let b = g j in let u = t j in ground arith;
      keyed = λ j n f. let a = h.keyed j n in let b = g j in ground (arith, ==_iff k j);
      counted = c;
      wraps = let a = h.wraps in omega arith;
    }

  pub push_back-none :
      (m : OutInflightMessage) (w : OutInflight Q)
      → m.publish.inner.packet_id ≡ none
      → push_back d m w ≡ (none, w)
  unfolding push_back
  push_back-none m w i = rw (push_back, i) refl

  -- An effect that says nothing of any identifier.
  pub said_nothing :
      (w : OutInflight Q) (e : Effect) (es : List Effect)
      → ((j : ℕ) → says j e ≡ none)
      → IsTracked w es
      → IsTracked w (e ∷ es)
  unfolding is_waiting
  said_nothing w e es t h = record {
    holds = λ j. rw (is_waiting, t j) (h.holds j);
    keyed = h.keyed;
    counted = h.counted;
    wraps = h.wraps;
  }

  pub update_status-IsTracked :
      (now k : ℕ) (status : MomentStatus) (w : OutInflight Q) (es : List Effect)
      → IsTracked w es
      → IsTracked (update_status d now k status w) es
  unfolding update_status
  update_status-IsTracked now k status w es h = record {
    holds = λ j.
        let a = h.holds j in
        let b = d.get-get_mut k j (with_status d now status) w.queues in ground arith;
    keyed = λ j m e.
        go k j m (d.get j w.queues) refl
          (sym e ∙ d.get-get_mut k j (with_status d now status) w.queues);
    counted =
        let a = h.counted in
        let b = d.len-get_mut k (with_status d now status) w.queues in omega arith;
    wraps = h.wraps;
  }
    where
      go :
          (k j : ℕ) (m : OutInflightMessage) (o : Option OutInflightMessage)
          → d.get j w.queues ≡ o
          → some m ≡ (
              if k == j
              then elim o [ none ↦ none | some n ↦ some (with_status d now status n) ]
              else o)
          → m.publish.inner.packet_id ≡ some j
      go k j m none e f = ground arith
      go k j m (some n) e f =
          let a = h.keyed j n e in
          ap id_of f ∙ elim (Bool-cases (k == j)) [ inl b ↦ rw b a | inr b ↦ rw b a ]

  module _ (w : OutInflight Q) (es : List Effect) (h : IsTracked w es) where
    -- A message that is put into the window at its own identifier.
    pub push_back-IsTracked :
        (k : ℕ) (m : OutInflightMessage) (e : Effect)
        → m.publish.inner.packet_id ≡ some k
        → ((j : ℕ) → says j e ≡ (if k == j then some true else none))
        → IsTracked (push_back d m w).1 (e ∷ es)
    unfolding push_back
    push_back-IsTracked k m e i t = elim (Option-cases (d.get k w.queues)) [
      | inl n ↦
          let l = d.len-insert_new k m w.queues n in
          let a = h.counted in
          rw (push_back, i, d.insert-old k m w.queues, n)
            (entered k w _ e es m i (λ j. d.get-insert k j m w.queues) t (omega arith) refl h)
      | inr (o, n) ↦
          let l = d.len-insert_old k m o w.queues n in
          let a = h.counted in
          rw (push_back, i, d.insert-old k m w.queues, n)
            (entered k w _ e es m i (λ j. d.get-insert k j m w.queues) t (omega arith) refl h)
    ]

    -- A message that is taken out of the window by its identifier.
    pub remove-some :
        (k : ℕ) (m : OutInflightMessage)
        → d.get k w.queues ≡ some m
        → ((remove d k w).0 ≡ some m) × IsTracked (remove d k w).1 (acked k m ∷ es)
    unfolding remove
    remove-some k m n =
        let l = d.len-remove_old k m w.queues n in
        let a = h.counted in
        rw (remove, d.remove-old k w.queues, n)
          (
            refl,
            left k w _ (acked k m) es (λ j. d.get-remove k j w.queues) (λ j. refl) (omega arith)
                refl h,
          )

    pub remove-none :
        (k : ℕ)
        → d.get k w.queues ≡ none
        → ((remove d k w).0 ≡ none) × IsTracked (remove d k w).1 es
    unfolding remove
    remove-none k n =
        let l = d.len-remove_new k w.queues n in
        let a = h.counted in
        rw (remove, d.remove-old k w.queues, n)
          (
            refl,
            record {
              holds = λ j.
                  let b = h.holds j in
                  let c = d.get-remove k j w.queues in ground (arith, ==_iff k j);
              keyed = λ j m e.
                  let b = h.keyed j m in
                  let c = d.get-remove k j w.queues in ground (arith, ==_iff k j);
              counted = omega arith;
              wraps = h.wraps;
            },
          )

    -- The message that is taken out of the front.
    pub pop_front-some :
        (k : ℕ) (m : OutInflightMessage)
        → d.front w.queues ≡ some (k, m)
        → ((pop_front d w).0 ≡ some m) × IsTracked (pop_front d w).1 (timed_out m ∷ es)
    unfolding pop_front
    pop_front-some k m f =
        let l = d.len-pop_front k m w.queues f in
        let a = h.counted in
        let i = h.keyed k m (d.get-front k m w.queues f) in
        rw (pop_front, d.pop_front-front w.queues, f)
          (
            refl,
            left k w _ (timed_out m) es (λ j. d.get-pop_front k j m w.queues f) (λ j. rw i refl)
                (omega arith) refl h,
          )

    -- What a round of the loop at a timeout finds.
    pub pop_front_timeout-cases :
        (now : ℕ)
        → let x = pop_front_timeout d now w in
          ((x.0 ≡ none) × IsTracked x.1 es)
          ⊎ ((m : OutInflightMessage) × (x.0 ≡ some m) × IsTracked x.1 (timed_out m ∷ es))
    unfolding pop_front_timeout pop_front
    pop_front_timeout-cases now = elim (Bool-cases (front_timeout d now w)) [
      | inr b ↦ rw (pop_front_timeout, b) (inl (refl, h))
      | inl b ↦ elim (Option-cases (d.front w.queues)) [
        | inl f ↦
            let x : (pop_front d w).0 ≡ none = rw (pop_front, d.pop_front-front w.queues, f) refl in
            let y : IsTracked (pop_front d w).1 es =
              rw (pop_front, d.pop_front-front w.queues, f, d.pop_front-none w.queues f) h in
            rw (pop_front_timeout, b) (inl (x, y))
        | inr ((k, m), f) ↦
            let (x, y) = pop_front-some k m f in rw (pop_front_timeout, b) (inr (m, x, y))
      ]
    ]
