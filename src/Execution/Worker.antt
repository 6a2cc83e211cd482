-- ===== src/Execution/Worker.antt =====
-- The resilient case worker: src/rag_eval/execution/worker.py, from `_execute_with_retry` down.
-- The functions above it are in CaseWorker.
--
-- What each attempt meets is an argument, a function of the attempt's number: the identity that the
-- generator makes, the readings of the clock, and how the target's call ends. The circuit breaker
-- is the shared one of Circuit; while this worker sleeps the others may move it, which `meanwhile`
-- stands for. A `TargetAdapterError` ends an attempt with its error record; other exceptions of the
-- call are turned into one by the source, with category INTERNAL. An exception behind the call is
-- not retried, nor is one of the transaction that records the attempt: both leave the loop.
pub mod Loop
pub mod Identity
use rag_eval.Prelude.{
  ℕ, zero, suc, ◌+◌, ◌-◌, Bool, true, false, Option, none, some, String, List, [], ◌∷◌, ◌++◌,
  str_eq, if◌then◌else◌,
}
use rag_eval.Prelude.Int.{ℤ}
use rag_eval.Execution.Circuit.{
  CircuitBreaker, Wait, done, sleeping, can_execute, wait_begin, wait_end, record_success,
  record_failure,
}
use rag_eval.Execution.Errors.{ErrorRecord, internal}
use rag_eval.Execution.Retry.{RetryConfig, RetryDecision, evaluate}
use rag_eval.Execution.Store.{
  CaseExecutionStatus, AttemptStatus, Attempt, CaseStore, latest_attempt, get_attempt,
  update_attempt,
}
use rag_eval.Execution.Attempts.{
  Chosen, Refusal, RequestIdentity, choose_identity, chosen, failed_row, no_previous_hash,
  no_previous_key, observed, payload_changed, persist_attempt_before_call,
  persist_completed_observation, persist_failed_attempt, persist_raw_response, received, refused,
  replay_identity, replay_key, running_attempt, send_request,
}

-- What ends the worker's call of the target.
pub data CallEnd (Response : Type 0) : Type 0 where
  answered : Response → CallEnd Response
  adapter_error : ErrorRecord → CallEnd Response
  other_exception : String → CallEnd Response

-- What the worker meets, by the attempt's number.
pub record Surroundings (Response : Type 0) (Observation : Type 0) : Type 0 where
  pub config : RetryConfig
  pub idempotency : Bool
  pub uniform : ℕ → ℕ → ℤ
  pub now : ℕ → ℕ
  pub fresh : ℕ → RequestIdentity
  pub call : ℕ → CallEnd Response
  pub normalize : Response → String → Option Observation
  pub artifact_id : ℕ → String
  pub meanwhile : CircuitBreaker → CircuitBreaker

-- The record that an exception which is no `TargetAdapterError` is turned into.
unfoldable pub execution_error : String → ErrorRecord
execution_error message = record {
  category = internal;
  code = "EXECUTION_ERROR";
  message = message;
  retryable = false;
  retry_after_ms = none;
  http_status = none;
}

-- `_wait_for_circuit_breaker`
unfoldable pub wait_for_breaker :
    (CircuitBreaker → CircuitBreaker) → ℕ → CircuitBreaker → CircuitBreaker
wait_for_breaker meanwhile now b =
    let (b', allowed) = can_execute now b in
    if allowed
    then b'
    else (let (b'', w) = wait_begin now b' in
        elim w [ done ↦ b'' | sleeping n ↦ wait_end (meanwhile b'') ])

-- How the loop ends: with an observation, with the last error, with an exception that is not
-- retried, or because the fuel ran out. The number is that of the last attempt.
pub data Ended (Observation : Type 0) : Type 0 where
  succeeded : Observation → ℕ → Ended Observation
  gave_up : ErrorRecord → ℕ → Ended Observation
  replay_refused : Refusal → Ended Observation
  not_normalized : ℕ → Ended Observation
  integrity_error : ℕ → Ended Observation
  out_of_fuel : Ended Observation

abbrev pub Run : Type 0 → Type 0
Run Observation = Ended Observation × CaseStore Observation × CircuitBreaker

module _ {Response Observation : Type 0} (env : Surroundings Response Observation) where
  -- An attempt whose call has returned.
  unfoldable pub after_response :
      ℕ → Response → String → CaseStore Observation → CircuitBreaker → Run Observation
  after_response n r request_id s b =
      let s' = persist_raw_response (env.now n) n (env.artifact_id n) s in
      elim (env.normalize r request_id) [
        | none ↦ (not_normalized n, s', b)
        | some o ↦
            (succeeded o n, persist_completed_observation (env.now n) n o s', record_success b)
      ]

  -- An attempt whose call has failed: count the failure, ask the policy, record the attempt, and go
  -- on by `again` if it is to be retried.
  unfoldable pub after_error :
      ℕ
      → ErrorRecord
      → CaseStore Observation
      → CircuitBreaker
      → (CaseStore Observation → CircuitBreaker → Run Observation)
      → Run Observation
  after_error n error s b again =
      let b' = record_failure (env.now n) b in
      let decision = evaluate (env.uniform n) env.config error n in
      let s' = persist_failed_attempt (env.now n) n error decision.should_retry s in
      if decision.should_retry then again s' b' else (gave_up error n, s', b')

  -- The call of the target for an attempt that is recorded.
  send_attempt :
      ℕ
      → String
      → CallEnd Response
      → CaseStore Observation
      → CircuitBreaker
      → (CaseStore Observation → CircuitBreaker → Run Observation)
      → Run Observation
  unfolding after_response after_error
  send_attempt n request_id (answered r) s b again = after_response n r request_id s b
  send_attempt n request_id (adapter_error error) s b again = after_error n error s b again
  send_attempt n request_id (other_exception message) s b again =
      after_error n (execution_error message) s b again

  -- `_execute_attempt`, under the identity that it has chosen
  call_with :
      ℕ
      → Chosen
      → CaseStore Observation
      → CircuitBreaker
      → (CaseStore Observation → CircuitBreaker → Run Observation)
      → Run Observation
  unfolding send_attempt persist_attempt_before_call
  call_with n (refused why) s b again = (replay_refused why, s, b)
  call_with n (chosen identity) s b again =
      elim (persist_attempt_before_call (env.now n) n identity s) [
        | none ↦ (integrity_error n, s, b)
        | some s' ↦ send_attempt n identity.request_id (env.call n) (send_request s') b again
      ]

  -- The loop of `_execute_with_retry`: `n` is the attempt that comes next.
  unfoldable pub retry_loop :
      ℕ → ℕ → Option Attempt → Bool → CaseStore Observation → CircuitBreaker → Run Observation
  unfolding call_with
  retry_loop zero n previous replay s b = (out_of_fuel, s, b)
  retry_loop (suc fuel) n previous replay s b =
      call_with n (choose_identity replay previous (env.fresh n)) s
        (wait_for_breaker env.meanwhile (env.now n) b)
        (λ s' b'. retry_loop fuel (n + 1) (latest_attempt s'.attempts) env.idempotency s' b')

  -- `_execute_with_retry`
  unfoldable pub execute_with_retry :
      ℕ → Option Attempt → Bool → CaseStore Observation → CircuitBreaker → Run Observation
  execute_with_retry initial previous replay s b =
      retry_loop (env.config.max_attempts - initial + 1) (initial + 1) previous replay s b
