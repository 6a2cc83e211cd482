-- ===== src/Execution/Retry/Delays.antt =====
-- The delays of `RetryPolicy` (src/rag_eval/execution/retry.py), in quarters of a millisecond.
use rag_eval.Prelude.{
  ℕ, ◌+◌, ◌-◌, ◌*◌, ◌^◌, ◌≤◌, ◌<◌, ◌≡◌, min, true, Option, none, some, str_eq, arith,
}
use rag_eval.Prelude.Int.{ℤ, pos, pos_part, neg_part}
use rag_eval.Execution.Errors.{ErrorRecord}
use rag_eval.Execution.Retry.{RetryConfig, validate_config, backoff, calculate_delay, evaluate}

-- What `random.uniform(-r, r)` promises: a draw between -r and r.
abbrev pub IsUniform : (ℕ → ℤ) → Type 0
IsUniform uniform = (r : ℕ) → (pos_part (uniform r) ≤ r) × (neg_part (uniform r) ≤ r)

module _ (uniform : ℕ → ℤ) (fair : IsUniform uniform) (c : RetryConfig) where
  -- With the exponential strategy the delay is the doubled and capped base, give or take a quarter.
  pub backoff-exponential :
      (attempt : ℕ)
      → str_eq c.strategy "exponential_jitter" ≡ true
      → let capped = min (c.initial_delay * 2 ^ (attempt - 1)) c.maximum_delay in
        (3 * capped ≤ backoff uniform c attempt) × (backoff uniform c attempt ≤ 5 * capped)
  unfolding backoff
  backoff-exponential attempt e =
      let capped : ℕ = min (c.initial_delay * 2 ^ (attempt - 1)) c.maximum_delay in
      let drawn : (pos_part (uniform capped) ≤ capped) × (neg_part (uniform capped) ≤ capped) =
        fair capped in
      ground arith

  backoff-le :
      (attempt : ℕ) → validate_config c ≡ true → backoff uniform c attempt ≤ 5 * c.maximum_delay
  unfolding backoff validate_config
  backoff-le attempt v =
      let capped : ℕ = min (c.initial_delay * 2 ^ (attempt - 1)) c.maximum_delay in
      let drawn : (pos_part (uniform capped) ≤ capped) × (neg_part (uniform capped) ≤ capped) =
        fair capped in
      ground arith

  -- A delay that the server asks for is honoured exactly, up to the maximum.
  pub calculate_delay-server :
      (attempt ms : ℕ)
      → 0 < ms
      → calculate_delay uniform c attempt (some ms) ≡ 4 * min ms c.maximum_delay
  unfolding calculate_delay
  calculate_delay-server attempt ms h = ground arith

  calculate_delay-le :
      (attempt : ℕ) (retry_after_ms : Option ℕ)
      → validate_config c ≡ true
      → calculate_delay uniform c attempt retry_after_ms ≤ 5 * c.maximum_delay
  unfolding calculate_delay
  calculate_delay-le attempt none v = backoff-le attempt v
  calculate_delay-le attempt (some ms) v = ground (arith, backoff-le attempt v)

  -- The delay of every decision of a validated configuration is at most a quarter above the
  -- configured maximum, whatever the error, the strategy and the draw.
  pub evaluate-delay_le :
      (e : ErrorRecord) (attempt : ℕ)
      → validate_config c ≡ true
      → (evaluate uniform c e attempt).delay ≤ 5 * c.maximum_delay
  unfolding evaluate
  evaluate-delay_le e attempt v =
      ground
        (arith, calculate_delay-le attempt none v, calculate_delay-le attempt e.retry_after_ms v)

-- The jitter is added after the cap: wherever the doubled base has reached the maximum and the
-- draw is positive, the delay is above the configured maximum.
pub jitter_exceeds_maximum :
    (uniform : ℕ → ℤ) (c : RetryConfig) (attempt more : ℕ)
    → str_eq c.strategy "exponential_jitter" ≡ true
    → c.maximum_delay ≤ c.initial_delay * 2 ^ (attempt - 1)
    → uniform c.maximum_delay ≡ pos (more + 1)
    → 4 * c.maximum_delay < backoff uniform c attempt
unfolding backoff
jitter_exceeds_maximum uniform c attempt more e reached drawn =
    let capped : min (c.initial_delay * 2 ^ (attempt - 1)) c.maximum_delay ≡ c.maximum_delay =
      omega arith in
    rw (e, capped, drawn) (ground arith)
