-- ===== src/Execution/Circuit/Opening.antt =====
-- When the breaker of src/rag_eval/execution/circuit_breaker.py opens, and whom it then turns away.
use rag_eval.Prelude.{
  ℕ, suc, ◌+◌, ◌≤◌, ◌<◌, ◌≡◌, ◌≢◌, ◌↔◌, true, false, Option, none, some, List, [], ◌∷◌, ◌++◌, ◌∙◌,
  length, Option-cases, inl, inr, arith, refl,
}
use rag_eval.Execution.Circuit.{
  CircuitState, CircuitBreakerConfig, CircuitBreaker, Call, closed, open_circuit, new_breaker,
  can_execute, record_failure, wait_end, apply_call, run_calls,
}
use rag_eval.Execution.Circuit.Laws.{
  Inv, IsSensible, new_breaker-Inv, apply_call-Inv, apply_call-IsSensible, apply_call-config,
}

-- For a configuration whose failure and success thresholds are at least one, and from a breaker that
-- satisfies the invariant, as a new one of such a configuration does: after any interleaving of calls,
-- at any times, the breaker satisfies the invariant. An open
-- breaker has its opening time, a closed one has none and is below the failure threshold, a
-- half-open one is below the success threshold, and no other state has counted probes.
pub run_calls-Inv :
    (cs : List (Call × ℕ)) (b : CircuitBreaker) → IsSensible b.config → Inv b → Inv (run_calls cs b)
unfolding run_calls
run_calls-Inv [] b s h = h
run_calls-Inv ((c, now) ∷ cs) b s h =
    run_calls-Inv cs (apply_call c now b) (apply_call-IsSensible c now b s)
      (apply_call-Inv c now b s h)

-- How many calls of a list record a failure.
abbrev pub failures : List (Call × ℕ) → ℕ
failures [] = 0
failures ((Call.failure, now) ∷ cs) = suc (failures cs)
failures ((c, now) ∷ cs) = failures cs

-- How far a breaker is on its way from closed to open.
abbrev progress : CircuitState → ℕ → ℕ → ℕ
progress closed count threshold = count
progress _ count threshold = threshold

abbrev progress_of : CircuitBreaker → ℕ
progress_of b = progress b.state b.failure_count b.config.failure_threshold

progress-apply_call :
    (c : Call) (now : ℕ) (b : CircuitBreaker) (cs : List (Call × ℕ))
    → Inv b
    → progress_of (apply_call c now b) + failures cs ≤ progress_of b + failures ((c, now) ∷ cs)
unfolding apply_call
progress-apply_call Call.ask now b cs h = ground arith
progress-apply_call _ now b cs h = ground arith

progress-run_calls :
    (cs : List (Call × ℕ)) (b : CircuitBreaker)
    → IsSensible b.config
    → Inv b
    → progress_of (run_calls cs b) ≤ progress_of b + failures cs
unfolding run_calls
progress-run_calls [] b s h = omega arith
progress-run_calls ((c, now) ∷ cs) b s h = omega (
  arith,
  progress-apply_call c now b cs h,
  progress-run_calls cs (apply_call c now b) (apply_call-IsSensible c now b s)
      (apply_call-Inv c now b s h),
)

run_calls-config : (cs : List (Call × ℕ)) (b : CircuitBreaker) → (run_calls cs b).config ≡ b.config
unfolding run_calls
run_calls-config [] b = refl
run_calls-config ((c, now) ∷ cs) b =
    run_calls-config cs (apply_call c now b) ∙ apply_call-config c now b

-- A new breaker with thresholds of at least one that is not closed after some interleaving of calls, at any times, has recorded
-- at least as many failures in it as the failure threshold of its configuration.
pub opening_needs_failures :
    (config : CircuitBreakerConfig) (cs : List (Call × ℕ))
    → IsSensible config
    → (run_calls cs (new_breaker config)).state ≢ closed
    → config.failure_threshold ≤ failures cs
unfolding new_breaker
opening_needs_failures config cs s h = ground (
  arith,
  run_calls-config cs (new_breaker config),
  progress-run_calls cs (new_breaker config) s (new_breaker-Inv config s),
)

-- Failures at the times of a list, with nothing between them.
abbrev pub all_failures : List ℕ → List (Call × ℕ)
all_failures [] = []
all_failures (now ∷ times) = (Call.failure, now) ∷ all_failures times

failure_below :
    (now : ℕ) (b : CircuitBreaker)
    → b.state ≡ closed
    → b.failure_count + 1 < b.config.failure_threshold
    → ((apply_call Call.failure now b).state ≡ closed)
      × ((apply_call Call.failure now b).failure_count ≡ b.failure_count + 1)
      × ((apply_call Call.failure now b).config ≡ b.config)
unfolding apply_call
failure_below now b c h = ground arith

failure_at :
    (now : ℕ) (b : CircuitBreaker)
    → b.state ≡ closed
    → b.failure_count + 1 ≡ b.config.failure_threshold
    → ((apply_call Call.failure now b).state ≡ open_circuit)
      × ((apply_call Call.failure now b).opened_at ≡ some now)
unfolding apply_call
failure_at now b c h = ground arith

-- A closed breaker opens at the failure that completes its threshold, when no other call comes
-- between, and it is dated with the time of that failure.
pub failures_open :
    (times : List ℕ) (last : ℕ) (b : CircuitBreaker)
    → b.state ≡ closed
    → b.failure_count + length times + 1 ≡ b.config.failure_threshold
    → ((run_calls (all_failures (times ++ last ∷ [])) b).state ≡ open_circuit)
      × ((run_calls (all_failures (times ++ last ∷ [])) b).opened_at ≡ some last)
unfolding run_calls
failures_open [] last b c h = failure_at last b c (omega arith)
failures_open (now ∷ times) last b c h =
    let (still, counted, same) = failure_below now b c (omega arith) in
    failures_open times last (apply_call Call.failure now b) still
      (rw (counted, same) (omega arith))

-- Whether the cooldown of an opening is still running; an opening without a time never cools.
abbrev pub IsCooling : Option ℕ → ℕ → ℕ → Type 0
IsCooling none cooldown now = Unit
IsCooling (some opened) cooldown now = now < opened + cooldown

-- A breaker refuses a request exactly when it is open and either undated or still cooling down, and
-- exactly then it also stays as it is.
pub can_execute-refuses :
    (now : ℕ) (b : CircuitBreaker)
    → (((can_execute now b).1 ≡ false)
        ↔ ((b.state ≡ open_circuit) × IsCooling b.opened_at b.config.cooldown now))
      × ((can_execute now b ≡ (b, false))
          ↔ ((b.state ≡ open_circuit) × IsCooling b.opened_at b.config.cooldown now))
unfolding can_execute
can_execute-refuses now b = elim (Option-cases b.opened_at) [
  | inl undated ↦ (
    (λ h. rw undated (ground arith), λ h. ground arith),
    (λ h. rw undated (ground arith), λ h. ground arith),
  )
  | inr (opened, dated) ↦ (
    (λ h. rw dated (ground arith), λ (o, c). let c' = rw dated at c in ground arith),
    (λ h. rw dated (ground arith), λ (o, c). let c' = rw dated at c in ground arith),
  )
]

-- While a breaker is open, a recorded failure leaves it open with its old opening time, so that
-- late failures do not extend the cooldown.
pub failure_while_open :
    (now : ℕ) (b : CircuitBreaker)
    → b.state ≡ open_circuit
    → ((record_failure now b).state ≡ open_circuit)
      × ((record_failure now b).opened_at ≡ b.opened_at)
      × ((record_failure now b).failure_count ≡ b.failure_count + 1)
unfolding record_failure
failure_while_open now b o = ground arith

-- A worker that wakes from its sleep lets requests through whenever the breaker is open, also
-- when it was opened again meanwhile and its new cooldown still runs, so that `can_execute` by
-- itself would refuse at that time.
pub wake_ignores_cooldown :
    (now opened : ℕ) (b : CircuitBreaker)
    → b.state ≡ open_circuit
    → b.opened_at ≡ some opened
    → now < opened + b.config.cooldown
    → ((can_execute now b).1 ≡ false) × ((can_execute now (wait_end b)).1 ≡ true)
unfolding can_execute wait_end
wake_ignores_cooldown now opened b o d h = ground arith
