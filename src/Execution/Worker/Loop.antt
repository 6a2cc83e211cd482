-- ===== src/Execution/Worker/Loop.antt =====
-- How the worker's retry loop ends (`_execute_with_retry` of src/rag_eval/execution/worker.py).
use rag_eval.Prelude.{
  ℕ, zero, suc, ◌+◌, ◌-◌, ◌≤◌, ◌<◌, ◌≡◌, inl, inr, Bool, true, Option, String, ◌∷◌, max, refl,
  arith, Bool-cases,
}
use rag_eval.Execution.Circuit.{CircuitBreaker, record_failure}
use rag_eval.Execution.Errors.{ErrorRecord}
use rag_eval.Execution.Retry.{evaluate}
use rag_eval.Execution.Retry.Laws.{evaluate-retries}
use rag_eval.Execution.Store.{CaseExecutionStatus, Attempt, CaseStore, latest_attempt}
use rag_eval.Execution.Attempts.{
  Chosen, chosen, refused, choose_identity, persist_attempt_before_call, begun, is_taken,
  send_request, persist_raw_response, persist_completed_observation, persist_failed_attempt,
}
use rag_eval.Execution.Worker.{
  Surroundings, CallEnd, answered, adapter_error, other_exception, Ended, succeeded, gave_up,
  replay_refused, not_normalized, integrity_error, send_attempt, out_of_fuel, Run, after_response,
  after_error, call_with, retry_loop, execute_with_retry, wait_for_breaker, execution_error,
}

module _ {Response Observation : Type 0} (env : Surroundings Response Observation) where
  -- What a loop that begins with attempt `n` from the state `s` has done when it ends.
  abbrev pub Report : ℕ → CaseStore Observation → Ended Observation → CaseStore Observation → Type 0
  Report n s (succeeded o m) t =
      (t.status ≡ CaseExecutionStatus.target_complete)
      × (t.observations ≡ (m, o) ∷ s.observations)
      × (n ≤ m)
      × (m ≤ max env.config.max_attempts n)
      × (t.calls + n ≡ s.calls + m + 1)
  Report n s (gave_up e m) t =
      (t.status ≡ CaseExecutionStatus.failed)
      × (t.observations ≡ s.observations)
      × (n ≤ m)
      × (m ≤ max env.config.max_attempts n)
      × (t.calls + n ≡ s.calls + m + 1)
  Report n s (not_normalized m) t =
      (t.status ≡ CaseExecutionStatus.running)
      × (t.observations ≡ s.observations)
      × (n ≤ m)
      × (m ≤ max env.config.max_attempts n)
      × (t.calls + n ≡ s.calls + m + 1)
  Report n s (integrity_error m) t =
      (t.observations ≡ s.observations)
      × (n ≤ m)
      × (m ≤ max env.config.max_attempts n)
      × (t.calls + n ≡ s.calls + m)
  Report n s (replay_refused why) t =
      (t.observations ≡ s.observations) × (t.calls + n ≤ s.calls + max env.config.max_attempts n)
  Report n s out_of_fuel t = ⊥

  abbrev pub Reports : ℕ → CaseStore Observation → Run Observation → Type 0
  Reports n s (e, t, b) = Report n s e t

  after_response-Reports :
      (n : ℕ) (r : Response) (id : String) (s s' : CaseStore Observation) (b : CircuitBreaker)
      → s'.calls ≡ s.calls + 1
      → s'.observations ≡ s.observations
      → s'.status ≡ CaseExecutionStatus.running
      → Reports n s (after_response env n r id s' b)
  unfolding after_response persist_raw_response persist_completed_observation
  after_response-Reports n r id s s' b c o st = ground arith

  -- A loop that goes on with the next attempt reports for this one.
  Report-next :
      (n : ℕ) (s s' : CaseStore Observation) (e : Ended Observation) (t : CaseStore Observation)
      → n < env.config.max_attempts
      → s'.calls ≡ s.calls + 1
      → s'.observations ≡ s.observations
      → Report (n + 1) s' e t
      → Report n s e t
  Report-next n s s' (succeeded o m) t l c os h = ground arith
  Report-next n s s' (gave_up x m) t l c os h = ground arith
  Report-next n s s' (not_normalized m) t l c os h = ground arith
  Report-next n s s' (integrity_error m) t l c os h = ground arith
  Report-next n s s' (replay_refused why) t l c os h = ground arith
  Report-next n s s' out_of_fuel t l c os h = h

  after_error-Reports :
      (n : ℕ) (error : ErrorRecord) (s s' : CaseStore Observation) (b : CircuitBreaker)
      (again : CaseStore Observation → CircuitBreaker → Run Observation)
      → s'.calls ≡ s.calls + 1
      → s'.observations ≡ s.observations
      → (n < env.config.max_attempts
          → (u : CaseStore Observation) (b' : CircuitBreaker) → Reports (n + 1) u (again u b'))
      → Reports n s (after_error env n error s' b again)
  unfolding after_error persist_failed_attempt
  after_error-Reports n error s s' b again c os ih =
      elim (Bool-cases (evaluate (env.uniform n) env.config error n).should_retry) [
        | inl e ↦
            let l = ((evaluate-retries (env.uniform n) env.config error n).0 e).0 in
            let u = persist_failed_attempt (env.now n) n error true s' in
            let b' = record_failure (env.now n) b in
            rw (e, after_error) (Report-next n s u (again u b').0 (again u b').1 l c os (ih l u b'))
        | inr e ↦ rw (e, after_error) (refl, os, omega arith, omega arith, omega (arith, c))
      ]

  send_attempt-Reports :
      (n : ℕ) (id : String) (c : CallEnd Response) (s s' : CaseStore Observation)
      (b : CircuitBreaker) (again : CaseStore Observation → CircuitBreaker → Run Observation)
      → s'.calls ≡ s.calls + 1
      → s'.observations ≡ s.observations
      → s'.status ≡ CaseExecutionStatus.running
      → (n < env.config.max_attempts
          → (u : CaseStore Observation) (b' : CircuitBreaker) → Reports (n + 1) u (again u b'))
      → Reports n s (send_attempt env n id c s' b again)
  unfolding send_attempt
  send_attempt-Reports n id (answered r) s s' b again c os st ih =
      after_response-Reports n r id s s' b c os st
  send_attempt-Reports n id (adapter_error error) s s' b again c os st ih =
      after_error-Reports n error s s' b again c os ih
  send_attempt-Reports n id (other_exception message) s s' b again c os st ih =
      after_error-Reports n (execution_error message) s s' b again c os ih

  call_with-Reports :
      (n : ℕ) (identity : Chosen) (s : CaseStore Observation) (b : CircuitBreaker)
      (again : CaseStore Observation → CircuitBreaker → Run Observation)
      → (n < env.config.max_attempts
          → (u : CaseStore Observation) (b' : CircuitBreaker) → Reports (n + 1) u (again u b'))
      → Reports n s (call_with env n identity s b again)
  unfolding call_with persist_attempt_before_call begun send_request
  call_with-Reports n (refused why) s b again ih = (refl, omega arith)
  call_with-Reports n (chosen identity) s b again ih =
      elim (Bool-cases (is_taken n identity.request_id s.attempts)) [
        | inl taken ↦ rw (taken, call_with) (refl, omega arith, omega arith, refl)
        | inr free ↦
            rw (free, call_with)
              (send_attempt-Reports n identity.request_id (env.call n) s
                (send_request (begun (env.now n) n identity s)) b again refl refl refl ih)
      ]

  -- Fuel for the attempts that are left is enough.
  retry_loop-Reports :
      (fuel n : ℕ) (previous : Option Attempt) (replay : Bool) (s : CaseStore Observation)
      (b : CircuitBreaker)
      → env.config.max_attempts < n + fuel
      → 0 < fuel
      → Reports n s (retry_loop env fuel n previous replay s b)
  unfolding retry_loop
  retry_loop-Reports zero n previous replay s b h p = absurd (omega arith)
  retry_loop-Reports (suc fuel) n previous replay s b h p =
      call_with-Reports n (choose_identity replay previous (env.fresh n)) s
        (wait_for_breaker env.meanwhile (env.now n) b) _
        (λ l u b'.
          retry_loop-Reports fuel (n + 1) (latest_attempt u.attempts) env.idempotency u b'
            (omega arith) (omega arith))

  -- The retry loop always ends, and its end is what the durable state says. With an observation, the
  -- case is TARGET_COMPLETE and exactly that observation has been added, under the number of the last
  -- attempt; with an error, the case is FAILED, and with a response that does not normalize it is
  -- RUNNING, both without a new observation. In these cases the attempts are numbered on from the
  -- initial number, each has sent one request, and the last is at most the configured maximum, or the
  -- first attempt where that maximum had been reached before. Where the row of an attempt breaks a
  -- unique constraint, no observation has been added, the attempts before it have sent one request
  -- each, and this one none. Where a replay is refused, no observation has been added, and fewer
  -- requests have been sent than the loop has attempts.
  pub execute_with_retry-Reports :
      (initial : ℕ) (previous : Option Attempt) (replay : Bool) (s : CaseStore Observation)
      (b : CircuitBreaker)
      → Reports (initial + 1) s (execute_with_retry env initial previous replay s b)
  unfolding execute_with_retry
  execute_with_retry-Reports initial previous replay s b =
      retry_loop-Reports (env.config.max_attempts - initial + 1) (initial + 1) previous replay s b
        (omega arith) (omega arith)
