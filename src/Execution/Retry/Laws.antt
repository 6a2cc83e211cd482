-- ===== src/Execution/Retry/Laws.antt =====
-- What `RetryPolicy.evaluate` (src/rag_eval/execution/retry.py) retries.
use rag_eval.Prelude.{
  ℕ, ◌+◌, ◌<◌, ◌≡◌, ◌↔◌, ◌⊎◌, inl, inr, true, false, none, some, ◌==◌, any, arith, Option-cases,
  Bool-cases,
}
use rag_eval.Prelude.Int.{ℤ}
use rag_eval.Execution.Errors.{ErrorRecord}
use rag_eval.Execution.Retry.{RetryConfig, is_retryable_category, evaluate}

-- Why an error that still has attempts left is worth a retry: it says so itself, or else its HTTP
-- status is among the configured ones, or else it has no status and its category is retryable.
abbrev pub Retryable : RetryConfig → ErrorRecord → Type 0
Retryable c e =
    (e.retryable ≡ true)
    ⊎ ((s : ℕ) × (e.http_status ≡ some s) × (any (λ t. s == t) c.retryable_http_statuses ≡ true))
    ⊎ ((e.http_status ≡ none) × (is_retryable_category c e.category ≡ true))

retries-Retryable :
    (uniform : ℕ → ℤ) (c : RetryConfig) (e : ErrorRecord) (attempt : ℕ)
    → (evaluate uniform c e attempt).should_retry ≡ true
    → Retryable c e
unfolding evaluate
retries-Retryable uniform c e attempt h = elim (Bool-cases e.retryable) [
  | inl explicit ↦ inl explicit
  | inr silent ↦ elim (Option-cases e.http_status) [
    | inl no_status ↦ inr (inr (no_status, ground arith))
    | inr (s, status) ↦ inr (inl (s, status, ground arith))
  ]
]

-- An attempt is retried exactly when attempts are left and the error is retryable: because it says
-- so itself, or by its HTTP status, or, only where it has no status, by its category.
pub evaluate-retries :
    (uniform : ℕ → ℤ) (c : RetryConfig) (e : ErrorRecord) (attempt : ℕ)
    → ((evaluate uniform c e attempt).should_retry ≡ true)
      ↔ ((attempt < c.max_attempts) × Retryable c e)
unfolding evaluate
evaluate-retries uniform c e attempt =
    (λ h. (ground arith, retries-Retryable uniform c e attempt h), λ (l, r). ground arith)

-- The decision says no more than the policy: a decision not to retry has no delay, and every
-- decision hands on the error and the number of the attempt that would follow.
pub evaluate_lem :
    (uniform : ℕ → ℤ) (c : RetryConfig) (e : ErrorRecord) (attempt : ℕ)
    → let d = evaluate uniform c e attempt in
      (d.should_retry ≡ false → d.delay ≡ 0)
      × (d.next_attempt_number ≡ attempt + 1)
      × (d.error_record ≡ e)
unfolding evaluate
evaluate_lem uniform c e attempt = ground arith
