-- ===== src/Examples/Worker.antt =====
-- Runs of the retry loop of src/rag_eval/execution/worker.py.
use rag_eval.Prelude.{
  ℕ, ◌≡◌, ◌==◌, if◌then◌else◌, ◌⊎◌, true, false, none, some, String, [], ◌∷◌, refl,
}
use rag_eval.Prelude.Int.{pos}
use rag_eval.Execution.Circuit.{CircuitBreaker, new_breaker, can_execute}
use rag_eval.Execution.Errors.{ErrorRecord, network}
use rag_eval.Execution.Retry.{evaluate}
use rag_eval.Execution.Store.{
  AttemptStatus, pending, Attempt, update_attempt, CaseStore, latest_attempt,
}
use rag_eval.Execution.Attempts.{
  RequestIdentity, chosen, choose_identity, Refusal, begun, is_taken, persist_attempt_before_call,
  persist_failed_attempt, send_request,
}
use rag_eval.Execution.Worker.{
  CallEnd, answered, adapter_error, Surroundings, execute_with_retry, retry_loop, after_error,
  wait_for_breaker, succeeded, integrity_error, replay_refused,
}
use rag_eval.Execution.Worker.Identity.{replay_sends_nothing}
use rag_eval.Execution.Worker.Loop.{Reports, execute_with_retry-Reports}

abbrev dropped : ErrorRecord
dropped = record {
  category = network;
  code = "CONNECTION_LOST";
  message = "connection lost";
  retryable = true;
  retry_after_ms = none;
  http_status = none;
}

abbrev identity : RequestIdentity
identity = record {
  request_id = "request-1";
  idempotency_key = "key-1";
  canonical_request_hash = "hash";
}

abbrev fresh_identity : RequestIdentity
fresh_identity = record identity { request_id = "request-2"; idempotency_key = "key-2" }

-- The first call fails and the second is answered.
abbrev first_fails : ℕ → CallEnd String
first_fails n = if n == 1 then adapter_error dropped else answered "answer"

abbrev pub env : Surroundings String String
env = record {
  config = record {
    max_attempts = 3;
    strategy = "fixed";
    initial_delay = 1000;
    maximum_delay = 5000;
    retryable_http_statuses = [];
    retryable_categories = [];
  };
  idempotency = true;
  uniform = λ n r. pos 0;
  now = λ n. n;
  fresh = λ n. if n == 1 then identity else fresh_identity;
  call = first_fails;
  normalize = λ r id. some r;
  artifact_id = λ n. "artifact";
  meanwhile = λ b. b;
}

abbrev pub breaker : CircuitBreaker
breaker = new_breaker (record {
  failure_threshold = 5;
  cooldown = 60000;
  success_threshold = 2;
  probe_timeout = 10000;
})

abbrev pub fresh_case : CaseStore String
fresh_case = record {
  status = pending;
  started_at = none;
  finished_at = none;
  attempts = [];
  observations = [];
  errors = [];
  calls = 0;
}

-- The retry of an idempotent target takes the first attempt's request id again.
execute_with_retry_test :
    (execute_with_retry env 0 none false fresh_case breaker).0 ≡ integrity_error 2
unfolding execute_with_retry retry_loop wait_for_breaker new_breaker can_execute
    persist_failed_attempt persist_attempt_before_call begun is_taken after_error evaluate
    latest_attempt update_attempt choose_identity send_request
execute_with_retry_test = refl

-- On another target it has an id of its own.
abbrev plain_env : Surroundings String String
plain_env = record env { idempotency = false }

retries_test :
    (execute_with_retry plain_env 0 none false fresh_case breaker).0 ≡ succeeded "answer" 2
unfolding execute_with_retry retry_loop wait_for_breaker new_breaker can_execute
    persist_failed_attempt persist_attempt_before_call begun is_taken after_error evaluate
    latest_attempt update_attempt choose_identity send_request
retries_test = refl

execute_with_retry-Reports_example :
    Reports plain_env 1 fresh_case (execute_with_retry plain_env 0 none false fresh_case breaker)
execute_with_retry-Reports_example =
    execute_with_retry-Reports plain_env 0 none false fresh_case breaker

abbrev attempted : Attempt
attempted = record {
  attempt_number = 1;
  request_id = "request-1";
  idempotency_key = some "key-1";
  canonical_request_hash = some "hash";
  status = AttemptStatus.running;
  started_at = some 1;
  updated_at = some 1;
  finished_at = none;
  retryable = none;
  error_summary = none;
  raw_response_artifact_id = none;
}

replays : choose_identity true (some attempted) fresh_identity ≡ chosen identity
unfolding choose_identity
replays = refl

abbrev attempted_case : CaseStore String
attempted_case = record fresh_case { attempts = attempted ∷ [] }

attempted-latest : latest_attempt attempted_case.attempts ≡ some attempted
unfolding latest_attempt
attempted-latest = refl

replay_sends_nothing_example :
    ((execute_with_retry env 1 (some attempted) true attempted_case breaker).1 ≡ attempted_case)
    × (((execute_with_retry env 1 (some attempted) true attempted_case breaker).0
          ≡ integrity_error 2)
        ⊎ ((why : Refusal) × ((execute_with_retry env 1
                (some attempted)
                true
                attempted_case
                breaker).0
              ≡ replay_refused why)))
replay_sends_nothing_example =
    replay_sends_nothing env 1 attempted attempted_case breaker attempted-latest
