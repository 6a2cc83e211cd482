-- ===== src/Execution/Attempts.antt =====
-- The attempts of the resilient worker: under which identity a request is sent, and the transactions
-- that record what becomes of it (src/rag_eval/execution/worker.py).
use rag_eval.Prelude.{
  ℕ, ◌+◌, Bool, true, false, Option, none, some, String, List, [], ◌∷◌, ◌++◌, ◌||◌, ◌==◌, str_eq,
  if◌then◌else◌,
}
use rag_eval.Execution.Errors.{ErrorRecord}
use rag_eval.Execution.Store.{
  CaseExecutionStatus, AttemptStatus, Attempt, CaseStore, update_attempt,
}

-- `class RequestIdentity`
pub record RequestIdentity : Type 0 where
  pub request_id : String
  pub idempotency_key : String
  pub canonical_request_hash : String

-- Why an idempotent replay is refused.
pub data Refusal : Type 0 where
  no_previous_hash payload_changed no_previous_key : Refusal

pub data Chosen : Type 0 where
  chosen : RequestIdentity → Chosen
  refused : Refusal → Chosen

unfoldable pub replay_key : Attempt → String → Option String → Chosen
replay_key a hash none = refused no_previous_key
replay_key a hash (some key) =
    chosen
      (record { request_id = a.request_id; idempotency_key = key; canonical_request_hash = hash })

unfoldable pub replay_identity : Attempt → Option String → RequestIdentity → Chosen
unfolding replay_key
replay_identity a none fresh = refused no_previous_hash
replay_identity a (some hash) fresh =
    if str_eq fresh.canonical_request_hash hash
    then replay_key a hash a.idempotency_key
    else refused payload_changed

-- The identity part of `_execute_attempt`.
unfoldable pub choose_identity : Bool → Option Attempt → RequestIdentity → Chosen
unfolding replay_identity
choose_identity true (some a) fresh = replay_identity a a.canonical_request_hash fresh
choose_identity true none fresh = chosen fresh
choose_identity false previous fresh = chosen fresh

-- The row that `_persist_attempt_before_call` adds; `updated_at` has the time as its server default.
abbrev pub running_attempt : ℕ → ℕ → RequestIdentity → Attempt
running_attempt now n identity = record {
  attempt_number = n;
  request_id = identity.request_id;
  idempotency_key = some identity.idempotency_key;
  canonical_request_hash = some identity.canonical_request_hash;
  status = AttemptStatus.running;
  started_at = some now;
  updated_at = some now;
  finished_at = none;
  retryable = none;
  error_summary = none;
  raw_response_artifact_id = none;
}

-- Whether a unique constraint on the attempts (`request_id`, and the number within the case) keeps a
-- row with that number and request id out. The attempts of other cases have request ids of their own.
unfoldable pub is_taken : ℕ → String → List Attempt → Bool
is_taken n id [] = false
is_taken n id (a ∷ rest) = str_eq id a.request_id || (n == a.attempt_number || is_taken n id rest)

-- The rows of an attempt that the worker's transactions write.
unfoldable pub received : ℕ → String → Attempt → Attempt
received now artifact_id a = record a {
  raw_response_artifact_id = some artifact_id;
  status = AttemptStatus.response_received;
  finished_at = some now;
  updated_at = some now;
  retryable = some false;
  error_summary = none;
}

unfoldable pub observed : ℕ → Attempt → Attempt
observed now a = record a {
  status = AttemptStatus.response_received;
  finished_at = some now;
  updated_at = some now;
  retryable = some false;
  error_summary = none;
}

unfoldable pub failed_row : ℕ → Bool → String → Attempt → Attempt
failed_row now will_retry message a = record a {
  status =
      (if will_retry then AttemptStatus.retryable_failure else AttemptStatus.permanent_failure);
  finished_at = some now;
  updated_at = some now;
  retryable = some will_retry;
  error_summary = some message;
}

module _ {Observation : Type 0} where
  -- The state that `_persist_attempt_before_call` commits.
  unfoldable pub begun : ℕ → ℕ → RequestIdentity → CaseStore Observation → CaseStore Observation
  begun now n identity s = record s {
    status = CaseExecutionStatus.running;
    started_at = some now;
    finished_at = none;
    attempts = s.attempts ++ running_attempt now n identity ∷ [];
  }

  -- `_persist_attempt_before_call`; nothing where the row breaks a unique constraint, which raises an
  -- IntegrityError and commits nothing.
  unfoldable pub persist_attempt_before_call :
      ℕ → ℕ → RequestIdentity → CaseStore Observation → Option (CaseStore Observation)
  persist_attempt_before_call now n identity s =
      if is_taken n identity.request_id s.attempts then none else some (begun now n identity s)

  -- The call of the target, which no transaction surrounds.
  unfoldable pub send_request : CaseStore Observation → CaseStore Observation
  send_request s = record s { calls = s.calls + 1 }

  -- `_persist_raw_response`
  unfoldable pub persist_raw_response :
      ℕ → ℕ → String → CaseStore Observation → CaseStore Observation
  unfolding received
  persist_raw_response now n artifact_id s = record s {
    attempts = update_attempt n (received now artifact_id) s.attempts;
  }

  -- `_persist_completed_observation`
  unfoldable pub persist_completed_observation :
      ℕ → ℕ → Observation → CaseStore Observation → CaseStore Observation
  unfolding observed
  persist_completed_observation now n o s = record s {
    observations = (n, o) ∷ s.observations;
    attempts = update_attempt n (observed now) s.attempts;
    status = CaseExecutionStatus.target_complete;
    finished_at = some now;
  }

  -- `_persist_failed_attempt`; the worker's error records carry fresh ids.
  unfoldable pub persist_failed_attempt :
      ℕ → ℕ → ErrorRecord → Bool → CaseStore Observation → CaseStore Observation
  unfolding failed_row
  persist_failed_attempt now n error will_retry s = record s {
    attempts = update_attempt n (failed_row now will_retry error.message) s.attempts;
    errors = (some n, error.message) ∷ s.errors;
    status = (if will_retry then CaseExecutionStatus.retry_pending else CaseExecutionStatus.failed);
    finished_at = (if will_retry then none else some now);
  }
