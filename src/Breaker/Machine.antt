-- ===== src/Breaker/Machine.antt =====
-- The states that oximqtt/src/utils/circuit_breaker.rs goes through.
use oximqtt.Base.{
  ◌^◌, ◌≤◌, ◌≢◌, refl, inl, inr, sym, subst, le_or_lt, Bool-cases, ℕ, ◌+◌, ◌<◌, ◌≡◌, true, false,
  arith, List, [], ◌∷◌, ◌⊎◌,
}
use oximqtt.Breaker.{
  CircuitState, state_closed, state_open, state_half_open, CircuitBreaker, is_blocked,
  record_success, record_failure, reset, Call, call_is_blocked, call_success, call_failure,
  call_reset, step,
}

-- The arrows of the state machine, with the calls they are for and the conditions under which they
-- are taken. There is none from half-open to open as time passes.
pub data Edge : Call → CircuitBreaker → CircuitState → Type 0 where
  -- A failure in the closed state: the one with which the count reaches the threshold opens it.
  trips :
      (now : ℕ) (b : CircuitBreaker)
      → b.state ≡ state_closed
      → b.config.failure_threshold ≤ b.failure_count + 1
      → Edge (call_failure now) b state_open
  endures :
      (now : ℕ) (b : CircuitBreaker)
      → b.state ≡ state_closed
      → b.failure_count + 1 < b.config.failure_threshold
      → Edge (call_failure now) b state_closed
  relapses :
      (now : ℕ) (b : CircuitBreaker)
      → b.state ≡ state_half_open
      → Edge (call_failure now) b state_open
  fails_open :
      (now : ℕ) (b : CircuitBreaker) → b.state ≡ state_open → Edge (call_failure now) b state_open
  -- A success in the half-open state: the one with which the count reaches the threshold closes it.
  recovers :
      (b : CircuitBreaker)
      → b.state ≡ state_half_open
      → b.config.half_open_success_threshold ≤ b.success_count + 1
      → Edge call_success b state_closed
  improves :
      (b : CircuitBreaker)
      → b.state ≡ state_half_open
      → b.success_count + 1 < b.config.half_open_success_threshold
      → Edge call_success b state_half_open
  succeeds_closed : (b : CircuitBreaker) → b.state ≡ state_closed → Edge call_success b state_closed
  succeeds_open : (b : CircuitBreaker) → b.state ≡ state_open → Edge call_success b state_open
  -- A question in the open state of a breaker that is enabled: a probe once the timeout has passed.
  probes :
      (now : ℕ) (b : CircuitBreaker)
      → b.config.enabled ≡ true
      → b.state ≡ state_open
      → b.opened_at + b.config.reset_timeout ≤ now
      → Edge (call_is_blocked now) b state_half_open
  waits :
      (now : ℕ) (b : CircuitBreaker)
      → b.config.enabled ≡ true
      → b.state ≡ state_open
      → now < b.opened_at + b.config.reset_timeout
      → Edge (call_is_blocked now) b state_open
  passes :
      (now : ℕ) (b : CircuitBreaker)
      → b.config.enabled ≡ true
      → b.state ≢ state_open
      → Edge (call_is_blocked now) b b.state
  ignores :
      (now : ℕ) (b : CircuitBreaker)
      → b.config.enabled ≡ false
      → Edge (call_is_blocked now) b b.state
  resets : (b : CircuitBreaker) → Edge call_reset b state_closed

-- The clock reads below 2 ^ 63 and has not gone back since the breaker opened.
abbrev pub IsTimely : Call → CircuitBreaker → Type 0
IsTimely (call_is_blocked now) b = (b.opened_at ≤ now) × (now < 2 ^ 63)
IsTimely _ b = Unit

-- The counters are under their thresholds wherever the state looks at them.
abbrev pub IsBelow : CircuitBreaker → Type 0
IsBelow b = elim b.state [
  | state_closed ↦ (b.failure_count ≡ 0) ⊎ (b.failure_count < b.config.failure_threshold)
  | state_half_open ↦
      (b.success_count ≡ 0) ⊎ (b.success_count < b.config.half_open_success_threshold)
  | state_open ↦ Unit {0}
]

-- Calls, the first one first.
unfoldable pub run : List Call → CircuitBreaker → CircuitBreaker
run [] b = b
run (c ∷ cs) b = run cs (step c b)

-- The state, as a case of its own.
state-cases : (s : CircuitState) → (s ≡ state_closed) ⊎ ((s ≡ state_half_open) ⊎ (s ≡ state_open))
state-cases state_closed = inl refl
state-cases state_half_open = inr (inl refl)
state-cases state_open = inr (inr refl)

-- An arrow, at another name for the state it leads to.
to_state : {c : Call} {b : CircuitBreaker} {s t : CircuitState} → t ≡ s → Edge c b s → Edge c b t
to_state {c} {b} e h = subst (λ x. Edge c b x) (sym e) h

blocked-Edge :
    (now : ℕ) (b : CircuitBreaker)
    → IsTimely (call_is_blocked now) b
    → Edge (call_is_blocked now) b (is_blocked now b).1.state
unfolding is_blocked
blocked-Edge now b t = elim (Bool-cases b.config.enabled) [
  | inr e ↦ to_state (ground arith) (ignores now b e)
  | inl e ↦ elim (state-cases b.state) [
    | inl h ↦ to_state (ground arith) (passes now b e (ground arith))
    | inr h ↦ elim h [
      | inl i ↦ to_state (ground arith) (passes now b e (ground arith))
      | inr i ↦ elim (le_or_lt (b.opened_at + b.config.reset_timeout) now) [
        | inl l ↦ to_state (ground arith) (probes now b e i l)
        | inr l ↦ to_state (ground arith) (waits now b e i l)
      ]
    ]
  ]
]

success-Edge : (b : CircuitBreaker) → Edge call_success b (record_success b).state
unfolding record_success
success-Edge b = elim (state-cases b.state) [
  | inl h ↦ to_state (ground arith) (succeeds_closed b h)
  | inr h ↦ elim h [
    | inr i ↦ to_state (ground arith) (succeeds_open b i)
    | inl i ↦ elim (le_or_lt b.config.half_open_success_threshold (b.success_count + 1)) [
      | inl l ↦ to_state (ground arith) (recovers b i l)
      | inr l ↦ to_state (ground arith) (improves b i l)
    ]
  ]
]

failure-Edge :
    (now : ℕ) (b : CircuitBreaker) → Edge (call_failure now) b (record_failure now b).state
unfolding record_failure
failure-Edge now b = elim (state-cases b.state) [
  | inl h ↦ elim (le_or_lt b.config.failure_threshold (b.failure_count + 1)) [
    | inl l ↦ to_state (ground arith) (trips now b h l)
    | inr l ↦ to_state (ground arith) (endures now b h l)
  ]
  | inr h ↦ elim h [
    | inl i ↦ to_state (ground arith) (relapses now b i)
    | inr i ↦ to_state (ground arith) (fails_open now b i)
  ]
]

-- Every call, with a clock below 2 ^ 63 that has not gone back since the breaker opened, takes an
-- arrow of the state machine whose condition holds: a failure opens a closed breaker exactly if the
-- count reaches its threshold, a success closes a half-open one exactly if the count reaches its
-- own, a question makes an open one half-open exactly if it is enabled and the timeout has passed.
pub step-Edge : (c : Call) (b : CircuitBreaker) → IsTimely c b → Edge c b (step c b).state
unfolding step reset
step-Edge (call_is_blocked now) b t = blocked-Edge now b t
step-Edge call_success b t = success-Edge b
step-Edge (call_failure now) b t = failure-Edge now b
step-Edge call_reset b t = resets b

step-IsBelow : (c : Call) (b : CircuitBreaker) → IsBelow b → IsBelow (step c b)
unfolding step is_blocked record_success record_failure reset
step-IsBelow (call_is_blocked now) b h = ground arith
step-IsBelow call_success b h = ground arith
step-IsBelow (call_failure now) b h = ground arith
step-IsBelow call_reset b h = ground arith

-- After any calls on a breaker that is so, a closed breaker has counted fewer failures than its
-- threshold, and a half-open one fewer successes than its own, or none at all.
pub run-IsBelow : (cs : List Call) (b : CircuitBreaker) → IsBelow b → IsBelow (run cs b)
unfolding run
run-IsBelow [] b h = h
run-IsBelow (c ∷ cs) b h = run-IsBelow cs (step c b) (step-IsBelow c b h)
