-- ===== src/Examples/Retry.antt =====
-- Decisions of the retry policy of src/rag_eval/execution/retry.py.
use rag_eval.Prelude.{ℕ, ◌*◌, ◌≤◌, ◌<◌, ◌≡◌, ◌↔◌, true, false, none, some, [], ◌∷◌, refl, arith}
use rag_eval.Prelude.Int.{ℤ, pos, ◌+ℤ◌}
use rag_eval.Execution.Errors.{ErrorRecord, rate_limit}
use rag_eval.Execution.Retry.{RetryConfig, validate_config, calculate_delay, backoff, evaluate}
use rag_eval.Execution.Retry.Laws.{Retryable, evaluate-retries}
use rag_eval.Execution.Retry.Delays.{IsUniform, evaluate-delay_le}

abbrev config : RetryConfig
config = record {
  max_attempts = 3;
  strategy = "exponential_jitter";
  initial_delay = 1000;
  maximum_delay = 5000;
  retryable_http_statuses = 429 ∷ 503 ∷ [];
  retryable_categories = rate_limit ∷ [];
}

abbrev too_many_requests : ErrorRecord
too_many_requests = record {
  category = rate_limit;
  code = "RATE_LIMITED";
  message = "too many requests";
  retryable = false;
  retry_after_ms = none;
  http_status = some 429;
}

-- The largest draw.
abbrev largest : ℕ → ℤ
largest r = pos r

largest-IsUniform : IsUniform largest
largest-IsUniform r = (omega arith, omega arith)

valid : validate_config config ≡ true
unfolding validate_config
valid = refl

evaluate_test : (evaluate largest config too_many_requests 2).delay ≡ 10000
unfolding evaluate calculate_delay backoff ◌+ℤ◌
evaluate_test = refl

evaluate-retries_example :
    ((evaluate largest config too_many_requests 2).should_retry ≡ true)
    ↔ ((2 < config.max_attempts) × Retryable config too_many_requests)
evaluate-retries_example = evaluate-retries largest config too_many_requests 2

evaluate-delay_le_example :
    (evaluate largest config too_many_requests 2).delay ≤ 5 * config.maximum_delay
evaluate-delay_le_example =
    evaluate-delay_le largest largest-IsUniform config too_many_requests 2 valid
