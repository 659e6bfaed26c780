-- ===== src/Breaker.antt =====
-- oximqtt/src/utils/circuit_breaker.rs: the circuit breaker, one call after the other. A time is a
-- number of milliseconds, an `i64` that is not negative; a call that reads the clock takes it.
pub mod Machine
pub mod Counts
pub mod Tests
use oximqtt.Base.{ℕ, ◌+◌, ◌-◌, ◌%◌, ◌^◌, Bool, true, false, leb, if◌then◌else◌}

-- `AtomicU8` holds one of the three constants; the arms `_` are never taken.
pub data CircuitState : Type 0 where
  state_closed state_open state_half_open : CircuitState

pub record CircuitBreakerConfig : Type 0 where
  pub enabled : Bool
  pub failure_threshold : ℕ
  pub reset_timeout : ℕ
  pub half_open_success_threshold : ℕ

pub record CircuitBreaker : Type 0 where
  pub state : CircuitState
  pub failure_count : ℕ
  pub opened_at : ℕ
  pub success_count : ℕ
  pub config : CircuitBreakerConfig

-- `CircuitBreaker::new`
abbrev pub new : CircuitBreakerConfig → CircuitBreaker
new config = record {
  state = state_closed;
  failure_count = 0;
  opened_at = 0;
  success_count = 0;
  config = config;
}

-- `(now - opened_at) as u64`
abbrev pub elapsed_ms : ℕ → ℕ → ℕ
elapsed_ms now opened_at = (now + 2 ^ 64 - opened_at) % 2 ^ 64

-- The stores of `is_blocked` before the probe.
abbrev pub probe : CircuitBreaker → CircuitBreaker
probe b = record {
  state = state_half_open;
  failure_count = b.failure_count;
  opened_at = b.opened_at;
  success_count = 0;
  config = b.config;
}

-- `CircuitBreaker::is_blocked`
unfoldable pub is_blocked : ℕ → CircuitBreaker → Bool × CircuitBreaker
is_blocked now b =
    if b.config.enabled
    then elim b.state [
      | state_closed ↦ (false, b)
      | state_half_open ↦ (false, b)
      | state_open ↦
          if leb b.config.reset_timeout (elapsed_ms now b.opened_at)
          then (false, probe b)
          else (true, b)
    ]
    else (false, b)

abbrev pub set_counts : CircuitState → ℕ → ℕ → CircuitBreaker → CircuitBreaker
set_counts state failure_count success_count b = record {
  state = state;
  failure_count = failure_count;
  opened_at = b.opened_at;
  success_count = success_count;
  config = b.config;
}

-- The stores of `record_failure` when the breaker opens.
abbrev pub trip : ℕ → ℕ → CircuitBreaker → CircuitBreaker
trip now failure_count b = record {
  state = state_open;
  failure_count = failure_count;
  opened_at = now;
  success_count = b.success_count;
  config = b.config;
}

-- `CircuitBreaker::record_success`. `fetch_add` wraps, and the sum that is tested does not.
unfoldable pub record_success : CircuitBreaker → CircuitBreaker
record_success b = elim b.state [
  | state_closed ↦ set_counts state_closed 0 b.success_count b
  | state_half_open ↦
      if leb b.config.half_open_success_threshold (b.success_count + 1)
      then set_counts state_closed 0 0 b
      else set_counts state_half_open b.failure_count ((b.success_count + 1) % 2 ^ 64) b
  | state_open ↦ b
]

-- `CircuitBreaker::record_failure`
unfoldable pub record_failure : ℕ → CircuitBreaker → CircuitBreaker
record_failure now b = elim b.state [
  | state_closed ↦
      if leb b.config.failure_threshold (b.failure_count + 1)
      then trip now ((b.failure_count + 1) % 2 ^ 64) b
      else set_counts state_closed ((b.failure_count + 1) % 2 ^ 64) b.success_count b
  | state_half_open ↦ trip now b.failure_count b
  | state_open ↦ b
]

-- `CircuitBreaker::reset`
unfoldable pub reset : CircuitBreaker → CircuitBreaker
reset b = record {
  state = state_closed;
  failure_count = 0;
  opened_at = 0;
  success_count = 0;
  config = b.config;
}

-- A call of one of the methods that change the breaker, with the time it reads.
pub data Call : Type 0 where
  call_is_blocked : ℕ → Call
  call_success : Call
  call_failure : ℕ → Call
  call_reset : Call

unfoldable pub step : Call → CircuitBreaker → CircuitBreaker
step (call_is_blocked now) b = (is_blocked now b).1
step call_success b = record_success b
step (call_failure now) b = record_failure now b
step call_reset b = reset b
