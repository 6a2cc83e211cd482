-- ===== src/Execution/Circuit/Laws.antt =====
-- The invariant of the circuit breaker (src/rag_eval/execution/circuit_breaker.py), over every
-- interleaving of calls.
use rag_eval.Prelude.{ℕ, ◌<◌, ◌≡◌, ◌≢◌, none, arith}
use rag_eval.Execution.Circuit.{
  CircuitBreakerConfig, CircuitBreaker, Call, closed, open_circuit, half_open, new_breaker,
  apply_call,
}

-- What holds of the breaker between two calls.
pub record Inv (b : CircuitBreaker) : Type 0 where
  pub open_dated : b.state ≡ open_circuit → b.opened_at ≢ none
  pub closed_undated : b.state ≡ closed → b.opened_at ≡ none
  pub closed_below : b.state ≡ closed → b.failure_count < b.config.failure_threshold
  pub probes_below : b.state ≡ half_open → b.success_count < b.config.success_threshold
  pub no_probes : b.state ≢ half_open → b.success_count ≡ 0

-- The thresholds that the invariant needs; the source does not check them.
pub record IsSensible (c : CircuitBreakerConfig) : Type 0 where
  pub some_failures : 0 < c.failure_threshold
  pub some_successes : 0 < c.success_threshold

pub new_breaker-Inv : (c : CircuitBreakerConfig) → IsSensible c → Inv (new_breaker c)
unfolding new_breaker
new_breaker-Inv c s = ground arith

pub apply_call-config :
    (c : Call) (now : ℕ) (b : CircuitBreaker) → (apply_call c now b).config ≡ b.config
unfolding apply_call
apply_call-config c now b = ground arith

pub apply_call-IsSensible :
    (c : Call) (now : ℕ) (b : CircuitBreaker)
    → IsSensible b.config
    → IsSensible (apply_call c now b).config
apply_call-IsSensible c now b s = ground (arith, apply_call-config c now b)

-- Each call keeps the invariant.
pub apply_call-Inv :
    (c : Call) (now : ℕ) (b : CircuitBreaker)
    → IsSensible b.config
    → Inv b
    → Inv (apply_call c now b)
unfolding apply_call
apply_call-Inv Call.ask now b s h = ground arith
apply_call-Inv _ now b s h = ground arith
