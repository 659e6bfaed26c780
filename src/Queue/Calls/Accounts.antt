-- ===== src/Queue/Calls/Accounts.antt =====
-- What becomes of the items of oximqtt/src/queue.rs as calls come between one another.
use oximqtt.Base.{ℕ, ◌+◌, Bool}
use oximqtt.Queue.{Policy}
use oximqtt.Queue.Calls.{System}
use oximqtt.Queue.Calls.Locks.{count, all_in_hand}

module _ {ℓ κ} {T : Type ℓ} {C : Type κ} where
  module _ (try_send : C → C) (policy_fn : T → Policy) where
    -- The items in the queue, those that were received, and those that calls have in hand, gave back
    -- or dropped.
    abbrev pub total : (T → Bool) → System T C → ℕ
    total p s = count p s.shared.queue.inner + count p s.received + count p (all_in_hand s.calls)
