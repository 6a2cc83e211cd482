-- ===== src/Examples/Circuit.antt =====
-- Runs of the circuit breaker of src/rag_eval/execution/circuit_breaker.py.
use rag_eval.Prelude.{ℕ, ◌≤◌, ◌≡◌, ◌≢◌, some, List, [], ◌∷◌, refl, arith}
use rag_eval.Execution.Circuit.{
  CircuitBreakerConfig, CircuitBreaker, Call, closed, open_circuit, half_open, sleeping,
  new_breaker, can_execute, record_failure, wait_begin, apply_call, run_calls,
}
use rag_eval.Execution.Circuit.Laws.{Inv, IsSensible, new_breaker-Inv}
use rag_eval.Execution.Circuit.Opening.{run_calls-Inv, failures, opening_needs_failures}

abbrev config : CircuitBreakerConfig
config = record {
  failure_threshold = 3;
  cooldown = 60000;
  success_threshold = 2;
  probe_timeout = 10000;
}

config-IsSensible : IsSensible config
config-IsSensible = record { some_failures = omega arith; some_successes = omega arith }

-- Three failures, a request that is refused, one that probes, and a failed probe.
abbrev calls : List (Call × ℕ)
calls =
    (Call.failure, 1000)
    ∷ (Call.failure, 2000)
    ∷ (Call.failure, 3000)
    ∷ (Call.ask, 4000)
    ∷ (Call.ask, 63000)
    ∷ (Call.failure, 63500)
    ∷ []

abbrev opened : CircuitBreaker
opened = record {
  config = config;
  state = open_circuit;
  failure_count = 3;
  success_count = 0;
  last_failure_time = some 3000;
  opened_at = some 3000;
}

abbrev probing : CircuitBreaker
probing = record opened { state = half_open }

run_calls_test : (run_calls calls (new_breaker config)).opened_at ≡ some 63500
unfolding run_calls new_breaker apply_call record_failure can_execute
run_calls_test = refl

run_calls-Inv_example : Inv (run_calls calls (new_breaker config))
unfolding new_breaker
run_calls-Inv_example =
    run_calls-Inv calls (new_breaker config) config-IsSensible
      (new_breaker-Inv config config-IsSensible)

calls_open : (run_calls calls (new_breaker config)).state ≢ closed
unfolding run_calls new_breaker apply_call record_failure can_execute
calls_open = ground arith

opening_needs_failures_example : config.failure_threshold ≤ failures calls
opening_needs_failures_example = opening_needs_failures config calls config-IsSensible calls_open

sleeps : (wait_begin 4000 opened).1 ≡ sleeping 59000
unfolding wait_begin
sleeps = refl
