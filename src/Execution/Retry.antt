-- ===== src/Execution/Retry.antt =====
-- The central retry policy: src/rag_eval/execution/retry.py, with `RetryConfig` of
-- src/rag_eval/config/models.py.
--
-- The source computes delays as floats, in seconds. Here the configured delays are whole
-- milliseconds, and a computed delay is in quarters of a millisecond, in which the jitter range
-- (a quarter of the capped delay) is whole too. `uniform r` is what `random.uniform(-r, r)` draws,
-- in quarters of a millisecond. Attempt numbers begin at 1, as the callers give them.
pub mod Laws
pub mod Delays
use rag_eval.Prelude.{
  ℕ, ◌+◌, ◌-◌, ◌*◌, ◌^◌, ◌≤◌, min, Bool, true, false, ◌||◌, Option, none, some, String, List, [],
  ◌∷◌, ◌==◌, ltb, leb, str_eq, any, if◌then◌else◌,
}
use rag_eval.Prelude.Int.{ℤ, pos, negsuc, pos_part, neg_part, ◌+ℤ◌}
use rag_eval.Execution.Errors.{
  ErrorCategory, network, connection, timeout, rate_limit, resource_exhausted, category_in,
  ErrorRecord,
}

-- `class RetryConfig`
pub record RetryConfig : Type 0 where
  pub max_attempts : ℕ
  pub strategy : String
  pub initial_delay : ℕ
  pub maximum_delay : ℕ
  pub retryable_http_statuses : List ℕ
  pub retryable_categories : List ErrorCategory

-- What the field constraints and `validate_delay_range` accept.
unfoldable pub validate_config : RetryConfig → Bool
validate_config c =
    if leb 1 c.max_attempts
    then (if ltb c.maximum_delay c.initial_delay then false else true)
    else false

-- The reason texts of a decision, each with what is filled in.
pub data Reason : Type 0 where
  max_attempts_reached : ℕ → Reason
  explicitly_retryable : ErrorCategory → Reason
  retryable_http_status : ℕ → Reason
  non_retryable_http_status : ℕ → Reason
  retryable_error_category : ErrorCategory → Reason
  non_retryable_error : ErrorCategory → String → Reason

-- `class RetryDecision`
pub record RetryDecision : Type 0 where
  pub should_retry : Bool
  pub reason : Reason
  pub delay : ℕ
  pub next_attempt_number : ℕ
  pub error_record : ErrorRecord

-- `default_retryable` of `_is_retryable_category`
abbrev pub default_retryable : List ErrorCategory
default_retryable = network ∷ connection ∷ timeout ∷ rate_limit ∷ resource_exhausted ∷ []

-- `_is_retryable_category`
unfoldable pub is_retryable_category : RetryConfig → ErrorCategory → Bool
is_retryable_category c category =
    if category_in category c.retryable_categories
    then true
    else category_in category default_retryable

-- The backoff of `_calculate_delay`, without a delay from the server.
unfoldable pub backoff : (ℕ → ℤ) → RetryConfig → ℕ → ℕ
unfolding ◌+ℤ◌
backoff uniform c attempt =
    if str_eq c.strategy "exponential_jitter"
    then (let base_delay = c.initial_delay * 2 ^ (attempt - 1) in
        let capped_delay = min base_delay c.maximum_delay in
        pos_part (pos (4 * capped_delay) +ℤ uniform capped_delay))
    else (if str_eq c.strategy "linear"
        then 4 * min (c.initial_delay * attempt) c.maximum_delay
        else 4 * c.initial_delay)

-- `_calculate_delay`
unfoldable pub calculate_delay : (ℕ → ℤ) → RetryConfig → ℕ → Option ℕ → ℕ
calculate_delay uniform c attempt none = backoff uniform c attempt
calculate_delay uniform c attempt (some retry_after_ms) =
    if ltb 0 retry_after_ms
    then 4 * min retry_after_ms c.maximum_delay
    else backoff uniform c attempt

-- The two kinds of decision, of which the source writes out each call.
abbrev pub retry_after : Reason → ℕ → ℕ → ErrorRecord → RetryDecision
retry_after reason delay attempt error = record {
  should_retry = true;
  reason = reason;
  delay = delay;
  next_attempt_number = attempt + 1;
  error_record = error;
}

abbrev pub give_up : Reason → ℕ → ErrorRecord → RetryDecision
give_up reason attempt error = record {
  should_retry = false;
  reason = reason;
  delay = 0;
  next_attempt_number = attempt + 1;
  error_record = error;
}

-- The tests of `evaluate` on the HTTP status and, without one, on the category.
unfoldable pub by_status : (ℕ → ℤ) → RetryConfig → Option ℕ → ErrorRecord → ℕ → RetryDecision
by_status uniform c (some status) error attempt =
    if any (λ s. status == s) c.retryable_http_statuses
    then retry_after (retryable_http_status status) (calculate_delay uniform c attempt none) attempt
        error
    else give_up (non_retryable_http_status status) attempt error
by_status uniform c none error attempt =
    if is_retryable_category c error.category
    then retry_after (retryable_error_category error.category)
        (calculate_delay uniform c attempt none) attempt error
    else give_up (non_retryable_error error.category error.code) attempt error

-- `evaluate`
unfoldable pub evaluate : (ℕ → ℤ) → RetryConfig → ErrorRecord → ℕ → RetryDecision
unfolding by_status
evaluate uniform c error attempt =
    if leb c.max_attempts attempt
    then give_up (max_attempts_reached c.max_attempts) attempt error
    else (if error.retryable
        then retry_after (explicitly_retryable error.category)
            (calculate_delay uniform c attempt error.retry_after_ms) attempt error
        else by_status uniform c error.http_status error attempt)
