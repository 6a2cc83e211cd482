-- ===== src/Examples/CaseWorker.antt =====
-- Cases under the resilient worker of src/rag_eval/execution/worker.py.
use rag_eval.Prelude.{◌≡◌, ◌≢◌, ◌⊎◌, inl, true, false, none, some, String, [], ◌∷◌, refl, arith}
use rag_eval.Execution.Circuit.{new_breaker, can_execute}
use rag_eval.Execution.Retry.{evaluate}
use rag_eval.Execution.Store.{
  CaseExecutionStatus, CaseStore, latest_attempt, update_attempt, get_observation,
}
use rag_eval.Execution.Recovery.{missing, decide_recovery, renormalize_attempt}
use rag_eval.Execution.Recovery.Laws.{HasResult, Lost}
use rag_eval.Execution.Attempts.{
  begun, is_taken, persist_attempt_before_call, persist_failed_attempt, choose_identity,
  send_request, persist_completed_observation, persist_raw_response,
}
use rag_eval.Execution.Worker.{
  execute_with_retry, retry_loop, wait_for_breaker, after_error, after_response,
}
use rag_eval.Execution.CaseWorker.{
  WorkerWorld, worker_sources, execute_worker, execute_with_recovery,
}
use rag_eval.Execution.CaseWorker.Requests.{Kept, request_needs_reason, worker_keeps_durable_result}
use rag_eval.Examples.Recovery.{lost_attempt}
use rag_eval.Examples.Worker.{env, breaker, fresh_case}

-- A target that promises idempotency.
abbrev world : WorkerWorld String String
world = record {
  env = env;
  fetch = λ id. missing;
  recover = λ id. none;
  request_recovery = false;
  staleness_threshold = 300000;
  now = 5000;
}

-- One that promises nothing.
abbrev plain_world : WorkerWorld String String
plain_world = record world { env = record env { idempotency = false } }

abbrev uncertain_case : CaseStore String
uncertain_case = record fresh_case {
  status = CaseExecutionStatus.unknown;
  attempts = lost_attempt ∷ [];
  calls = 1;
}

-- The same with an observation of its attempt.
abbrev observed_case : CaseStore String
observed_case = record uncertain_case { observations = (1, "answer") ∷ [] }

sends_one : (execute_worker world fresh_case breaker).1.calls ≡ 1
unfolding execute_worker execute_with_recovery decide_recovery execute_with_retry retry_loop
    wait_for_breaker new_breaker can_execute persist_failed_attempt persist_attempt_before_call
    begun is_taken after_error evaluate latest_attempt update_attempt choose_identity send_request
    after_response persist_raw_response persist_completed_observation
sends_one = refl

request_needs_reason_example :
    (((fresh_case.status ≡ CaseExecutionStatus.pending)
        ⊎ (fresh_case.status ≡ CaseExecutionStatus.retry_pending))
      × Lost (worker_sources world fresh_case) (latest_attempt fresh_case.attempts))
    ⊎ ((world.env.idempotency ≡ true) × (latest_attempt fresh_case.attempts ≢ none))
request_needs_reason_example =
    request_needs_reason world fresh_case breaker (λ e. ground (arith, e, sends_one))

uncertain-latest : latest_attempt uncertain_case.attempts ≡ some lost_attempt
unfolding latest_attempt
uncertain-latest = refl

uncertain-Lost : Lost (worker_sources plain_world uncertain_case) (some lost_attempt)
unfolding renormalize_attempt get_observation
uncertain-Lost = (refl, refl)

observed-HasResult : HasResult (worker_sources plain_world observed_case) lost_attempt
unfolding get_observation
observed-HasResult = inl ("answer", refl)

worker_keeps_durable_result_example :
    Kept plain_world observed_case breaker (execute_worker plain_world observed_case breaker)
    × ((observed_case.status ≡ CaseExecutionStatus.complete)
        ⊎ ((execute_worker plain_world observed_case breaker).1.status
            ≡ CaseExecutionStatus.target_complete))
worker_keeps_durable_result_example =
    worker_keeps_durable_result plain_world observed_case breaker lost_attempt uncertain-latest
      observed-HasResult
