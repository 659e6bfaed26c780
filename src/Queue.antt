-- ===== src/Queue.antt =====
-- oximqtt/src/queue.rs: the bounded queue between a session and its connection. `Queue` is shared
-- under a lock, which `push` and `pop` take once each. `Sender::send` takes it once, or three times
-- where it makes room: `send` below is such a call when no other comes between, and Queue/Calls has
-- the call by its steps, for calls that do. The channel that wakes the receiver is the crate
-- `futures`; its state and `try_send` are parameters of `send`.
pub mod Order
pub mod Calls
pub mod Tests
use oximqtt.Base.{
  ℕ, Bool, true, false, Option, none, some, List, [], ◌∷◌, ◌++◌, length, leb, Result, ok, err,
  if◌then◌else◌,
}

pub data Policy : Type 0 where
  current early : Policy

-- A call of `on_push_fn` or `on_pop_fn`.
pub data Event : Type 0 where
  on_push on_pop : Event

-- The callbacks are kept as whether they are set; `events` are their calls, the last one first.
pub record Queue {ℓ} (T : Type ℓ) : Type ℓ where
  pub cap : ℕ
  pub inner : List T
  pub has_on_push : Bool
  pub has_on_pop : Bool
  pub events : List Event

-- `Queue::new`
abbrev pub new {ℓ} : {T : Type ℓ} → ℕ → Queue T
new cap = record { cap = cap; inner = []; has_on_push = false; has_on_pop = false; events = [] }

-- A call of a callback, if it is set.
abbrev pub call : Bool → Event → List Event → List Event
call set e es = if set then e ∷ es else es

module _ {ℓ} {T : Type ℓ} where
  abbrev pub pushed : T → Queue T → Queue T
  pushed v q = record {
    cap = q.cap;
    inner = q.inner ++ (v ∷ []);
    has_on_push = q.has_on_push;
    has_on_pop = q.has_on_pop;
    events = call q.has_on_push on_push q.events;
  }

  -- `Queue::push`
  unfoldable pub push : T → Queue T → Result T (Unit {0}) × Queue T
  push v q = if leb q.cap (length q.inner) then (err v, q) else (ok tt, pushed v q)

  abbrev pub popped : List T → Queue T → Queue T
  popped inner q = record {
    cap = q.cap;
    inner = inner;
    has_on_push = q.has_on_push;
    has_on_pop = q.has_on_pop;
    events = call q.has_on_pop on_pop q.events;
  }

  -- `Queue::pop`
  unfoldable pub pop : Queue T → Option T × Queue T
  pop q = elim q.inner [ [] ↦ (none, q) | v ∷ inner ↦ (some v, popped inner q) ]

  -- What `send` returns for the item it made room for.
  abbrev pub returned : Option T → Result T (Unit {0})
  returned (some removed) = err removed
  returned none = ok tt

  abbrev pub retried : Option T → Result T (Unit {0}) × Queue T → Result T (Unit {0}) × Queue T
  retried removed (err v, q) = (err v, q)
  retried removed (ok _, q) = (returned removed, q)

  -- The arm `Policy::Early` of `Sender::send`: the oldest item makes room for the new one. No other
  -- call comes between its two steps.
  unfoldable pub send_early : T → Queue T → Result T (Unit {0}) × Queue T
  send_early v q = let (removed, q') = pop q in retried removed (push v q')

  module _ {κ} {C : Type κ} (try_send : C → Bool × C) (policy_fn : T → Policy) where
    -- The arms of `Sender::send` for a queue that is full.
    abbrev pub refused : C → Policy → T → Queue T → Result T (Unit {0}) × (Queue T × C)
    refused tx current v q = (err v, (q, tx))
    refused tx early v q = let (s, q') = send_early v q in (s, (q', tx))

    -- `Sender::send` after the first `push`; a channel that is full is only logged.
    abbrev pub after_push : C → Result T (Unit {0}) × Queue T → Result T (Unit {0}) × (Queue T × C)
    after_push tx (err v, q) = refused tx (policy_fn v) v q
    after_push tx (ok _, q) = (ok tt, (q, (try_send tx).1))

    -- `Sender::send`
    unfoldable pub send : T → Queue T × C → Result T (Unit {0}) × (Queue T × C)
    send v (q, tx) = after_push tx (push v q)
