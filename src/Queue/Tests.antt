-- ===== src/Queue/Tests.antt =====
-- Runs of oximqtt/src/queue.rs, and the theorems at a concrete queue.
use oximqtt.Base.{ℕ, Bool, suc, true, ◌≡◌, refl, none, some, ok, List, [], ◌∷◌, err}
use oximqtt.Queue.{current, early, Queue, new, push, pop, send_early, send}
use oximqtt.Queue.Calls.{
  finished, Shared, System, Action, begin_send, go_on, push_shared, pop_shared, advance, advance_at,
  step, run,
}

queues : Unit {0}
unfolding push pop send_early send push_shared pop_shared advance advance_at step run
queues = tt

-- A channel that counts its messages.
abbrev channel : ℕ → Bool × ℕ
channel n = (true, suc n)

abbrev two : Queue ℕ
two = record { cap = 2; inner = 7 ∷ 8 ∷ []; has_on_push = true; has_on_pop = true; events = [] }

send_current : (send channel (λ _. current) 9 (two, 2)).0 ≡ err 9
unfolding queues
send_current = refl

send_early_drops : (send channel (λ _. early) 9 (two, 2)).0 ≡ err 7
unfolding queues
send_early_drops = refl

send-new : (send channel (λ _. early) 9 (new {T = ℕ} 1, 0)).1.1 ≡ 1
unfolding queues
send-new = refl

pop-two : (pop two).0 ≡ some 7
unfolding queues
pop-two = refl

-- Two calls of `send` on a queue of one, which 7 fills: the first takes 7 out and 9 comes in before its
-- second `push`.
abbrev shared : Shared ℕ ℕ
shared = record {
  queue = record { cap = 1; inner = 7 ∷ []; has_on_push = true; has_on_pop = true; events = [] };
  tx = 0;
  entered = 7 ∷ [];
  taken = [];
}

abbrev idle : System ℕ ℕ
idle = record { shared = shared; calls = []; received = [] }

abbrev actions : List (Action ℕ)
actions = begin_send 8 ∷ begin_send 9 ∷ go_on 0 ∷ go_on 0 ∷ go_on 1 ∷ go_on 0 ∷ []

-- The first call gives back its own item, and 7 is lost.
dropped_then :
    (run suc (λ _. early) actions idle).calls
    ≡ finished (err 8) (some 7) ∷ finished (ok tt) none ∷ []
unfolding queues
dropped_then = refl
