-- ===== src/Breaker/Counts.antt =====
-- How many failures open the breaker of oximqtt/src/utils/circuit_breaker.rs, when it probes, and how
-- many successes close it again.
use oximqtt.Base.{
  le_or_lt, ℕ, zero, suc, ◌+◌, ◌^◌, ◌≤◌, ◌<◌, ◌≡◌, refl, true, leb, if◌then◌else◌, arith, length,
  List, [], ◌∷◌, ◌↔◌, inl, inr,
}
use oximqtt.Breaker.{
  state_closed, state_open, state_half_open, CircuitBreaker, is_blocked, record_success,
  record_failure, set_counts,
}

-- Failures at the given times, the first one first.
unfoldable pub failures : List ℕ → CircuitBreaker → CircuitBreaker
failures [] b = b
failures (now ∷ ts) b = failures ts (record_failure now b)

unfoldable pub successes : ℕ → CircuitBreaker → CircuitBreaker
successes zero b = b
successes (suc n) b = successes n (record_success b)

record_failure-open : (t : ℕ) (b : CircuitBreaker) → b.state ≡ state_open → record_failure t b ≡ b
unfolding record_failure
record_failure-open t b h = rw h refl

record_success-closed :
    (b : CircuitBreaker) → b.state ≡ state_closed → (record_success b).state ≡ state_closed
unfolding record_success
record_success-closed b h = ground arith

failures-open :
    (ts : List ℕ) (b : CircuitBreaker) → b.state ≡ state_open → (failures ts b).state ≡ state_open
unfolding failures
failures-open [] b h = h
failures-open (t ∷ ts) b h =
    failures-open ts (record_failure t b) (rw (record_failure-open t b h) h)

successes-closed :
    (n : ℕ) (b : CircuitBreaker) → b.state ≡ state_closed → (successes n b).state ≡ state_closed
unfolding successes
successes-closed zero b h = h
successes-closed (suc n) b h = successes-closed n (record_success b) (record_success-closed b h)

record_failure-trips :
    (t : ℕ) (b : CircuitBreaker)
    → b.state ≡ state_closed
    → b.config.failure_threshold ≤ b.failure_count + 1
    → (record_failure t b).state ≡ state_open
unfolding record_failure
record_failure-trips t b h k = ground arith

record_failure-counts :
    (t : ℕ) (b : CircuitBreaker)
    → b.state ≡ state_closed
    → b.failure_count + 1 < b.config.failure_threshold
    → b.config.failure_threshold < 2 ^ 64
    → record_failure t b ≡ set_counts state_closed (b.failure_count + 1) b.success_count b
unfolding record_failure
record_failure-counts t b h k m = ground arith

record_success-recovers :
    (b : CircuitBreaker)
    → b.state ≡ state_half_open
    → b.config.half_open_success_threshold ≤ b.success_count + 1
    → (record_success b).state ≡ state_closed
unfolding record_success
record_success-recovers b h k = ground arith

record_success-counts :
    (b : CircuitBreaker)
    → b.state ≡ state_half_open
    → b.success_count + 1 < b.config.half_open_success_threshold
    → b.config.half_open_success_threshold < 2 ^ 64
    → record_success b ≡ set_counts state_half_open b.failure_count (b.success_count + 1) b
unfolding record_success
record_success-counts b h k m = ground arith

-- A closed breaker whose count is below its threshold, under 2 ^ 64, opens at the failure with
-- which the count reaches it, no sooner, and stays open under further ones.
pub failures-state :
    (ts : List ℕ) (b : CircuitBreaker)
    → b.state ≡ state_closed
    → b.failure_count < b.config.failure_threshold
    → b.config.failure_threshold < 2 ^ 64
    → (failures ts b).state ≡ (
        if leb b.config.failure_threshold (b.failure_count + length ts)
        then state_open
        else state_closed)
unfolding failures
failures-state [] b h k m = ground arith
failures-state (t ∷ ts) b h k m = elim (le_or_lt b.config.failure_threshold (b.failure_count + 1)) [
  | inl l ↦
      let o = failures-open ts (record_failure t b) (record_failure-trips t b h l) in ground arith
  | inr l ↦
      let c = set_counts state_closed (b.failure_count + 1) b.success_count b in
      let i = failures-state ts c refl l m in
      rw (failures, record_failure-counts t b h l m) (ground arith)
]

-- A half-open breaker whose count is below its threshold, under 2 ^ 64, closes at the success with
-- which the count reaches it, no sooner, and stays closed under further ones.
pub successes-state :
    (n : ℕ) (b : CircuitBreaker)
    → b.state ≡ state_half_open
    → b.success_count < b.config.half_open_success_threshold
    → b.config.half_open_success_threshold < 2 ^ 64
    → (successes n b).state ≡ (
        if leb b.config.half_open_success_threshold (b.success_count + n)
        then state_closed
        else state_half_open)
unfolding successes
successes-state zero b h k m = ground arith
successes-state (suc n) b h k m =
    elim (le_or_lt b.config.half_open_success_threshold (b.success_count + 1)) [
      | inl l ↦
          let o = successes-closed n (record_success b) (record_success-recovers b h l) in
          ground arith
      | inr l ↦
          let c = set_counts state_half_open b.failure_count (b.success_count + 1) b in
          let i = successes-state n c refl l m in
          rw (successes, record_success-counts b h l m) (ground arith)
    ]

-- At a time below 2 ^ 63 that is not before the one it opened at, a breaker blocks a call exactly if
-- it is enabled and open and its timeout has not passed.
pub is_blocked_iff :
    (now : ℕ) (b : CircuitBreaker)
    → now < 2 ^ 63
    → b.opened_at ≤ now
    → ((is_blocked now b).0 ≡ true) ↔ (
        (b.config.enabled ≡ true)
        × (b.state ≡ state_open)
        × (now < b.opened_at + b.config.reset_timeout))
unfolding is_blocked
is_blocked_iff now b h k = ground arith
