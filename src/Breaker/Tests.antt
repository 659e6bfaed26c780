-- ===== src/Breaker/Tests.antt =====
-- Runs of oximqtt/src/utils/circuit_breaker.rs, and the theorems at concrete breakers.
use oximqtt.Base.{arith, true, ◌≡◌, refl, [], ◌∷◌}
use oximqtt.Breaker.{
  state_closed, state_open, CircuitBreakerConfig, CircuitBreaker, new, is_blocked, record_success,
  record_failure, reset, call_is_blocked, call_success, step,
}
use oximqtt.Breaker.Counts.{failures, successes}
use oximqtt.Breaker.Machine.{Edge, run, step-Edge}

breakers : Unit {0}
unfolding is_blocked record_success record_failure reset step run failures successes
breakers = tt

abbrev config : CircuitBreakerConfig
config = record {
  enabled = true;
  failure_threshold = 3;
  reset_timeout = 1_000;
  half_open_success_threshold = 2;
}

abbrev opened : CircuitBreaker
opened = record {
  state = state_open;
  failure_count = 3;
  opened_at = 5_000;
  success_count = 0;
  config = config;
}

trip_run : failures (10 ∷ 20 ∷ 30 ∷ []) (new config) ≡ record {
  state = state_open;
  failure_count = 3;
  opened_at = 30;
  success_count = 0;
  config = config;
}
unfolding breakers
trip_run = refl

blocked_run : is_blocked 5_999 opened ≡ (true, opened)
unfolding breakers
blocked_run = refl

recover_run :
    (run (call_is_blocked 6_000 ∷ call_success ∷ call_success ∷ []) opened).state ≡ state_closed
unfolding breakers
recover_run = refl

step-Edge_example : Edge (call_is_blocked 6_000) opened (step (call_is_blocked 6_000) opened).state
step-Edge_example = step-Edge (call_is_blocked 6_000) opened (omega arith, omega arith)
