-- ===== src/Execution/Recovery.antt =====
-- Recovery from durable state: src/rag_eval/execution/recovery.py.
--
-- What the service reads from outside stands in `Sources`: the observation table, the artifact
-- store, the two response models' validation, the normalizer (`none` where it raises), the
-- target's recovery endpoint (`none` where it raises) and the target's capabilities. The reason
-- texts of the decisions and the log lines are left out.
pub mod Laws
use rag_eval.Prelude.{
  ℕ, ◌+◌, Bool, true, false, ◌||◌, Option, none, some, String, ltb, if◌then◌else◌,
}
use rag_eval.Execution.Store.{CaseExecutionStatus, Attempt}

-- `class RecoveryAction`
pub data RecoveryAction : Type 0 where
  reuse_observation renormalize_raw recover_request idempotent_replay : RecoveryAction
  execute_new skip mark_unknown : RecoveryAction

-- `class RecoveryDecision`
pub record RecoveryDecision (Observation : Type 0) : Type 0 where
  pub action : RecoveryAction
  pub observation : Option Observation
  pub fallback_action : Option RecoveryAction

-- The two capabilities of `class TargetCapabilities` that recovery reads.
pub record TargetCapabilities : Type 0 where
  pub idempotency : Bool
  pub request_recovery : Bool

-- `class RequestStatus`
pub data RequestStatus : Type 0 where
  pending running completed failed cancelled not_found : RequestStatus

-- `class RequestRecoveryResult`, without the target's error.
pub record RequestRecoveryResult (Response : Type 0) : Type 0 where
  pub status : RequestStatus
  pub response : Option Response

-- A stored JSON document: whether it is an object, which of the keys it has, and what the two
-- response models make of it (`none` where validation fails).
pub record RawDocument (Response : Type 0) : Type 0 where
  pub is_object : Bool
  pub has_status : Bool
  pub has_answer : Bool
  pub has_retrieval : Bool
  pub as_query : Option Response
  pub as_retrieve : Option Response

-- What reading an artifact gives: no metadata row, an exception, or the document.
pub data Fetched (Response : Type 0) : Type 0 where
  missing raised : Fetched Response
  found : RawDocument Response → Fetched Response

pub record Sources (Response : Type 0) (Observation : Type 0) : Type 0 where
  pub find_observation : ℕ → Option Observation
  pub fetch : String → Fetched Response
  pub normalize : Response → String → Option Observation
  pub recover : String → Option (RequestRecoveryResult Response)
  pub capabilities : TargetCapabilities

abbrev pub or_else {ℓ} : {A : Type ℓ} → Option A → Option A → Option A
or_else (some a) b = some a
or_else none b = b

-- `_latest_attempt_activity`
unfoldable pub latest_attempt_activity : Attempt → Option ℕ
latest_attempt_activity a = or_else a.updated_at a.started_at

older_than : ℕ → ℕ → Option ℕ → Bool
older_than threshold now none = true
older_than threshold now (some t) = ltb (t + threshold) now

-- `_is_attempt_stale`
unfoldable pub is_attempt_stale : ℕ → ℕ → Option Attempt → Bool
unfolding older_than latest_attempt_activity
is_attempt_stale threshold now none = true
is_attempt_stale threshold now (some a) = older_than threshold now (latest_attempt_activity a)

-- `_parse_raw_response`
unfoldable pub parse_raw_response : {Response : Type 0} → RawDocument Response → Option Response
parse_raw_response d =
    or_else (if d.has_status || d.has_answer then d.as_query else none)
      (if d.has_retrieval then d.as_retrieve else none)

module _ {Observation : Type 0} where
  abbrev pub decided : RecoveryAction → RecoveryDecision Observation
  decided a = record { action = a; observation = none; fallback_action = none }

  -- The branch `recoverable_unknown` of `decide_recovery`.
  unfoldable pub decide_uncertain :
      TargetCapabilities → Option Attempt → RecoveryDecision Observation
  decide_uncertain caps none = decided mark_unknown
  decide_uncertain caps (some a) =
      if caps.request_recovery
      then (record {
        action = recover_request;
        observation = none;
        fallback_action = some (if caps.idempotency then idempotent_replay else mark_unknown);
      })
      else (if caps.idempotency then decided idempotent_replay else decided mark_unknown)

  -- The part of `decide_recovery` behind the two durable results, by the case's status.
  unfoldable pub decide_by_status :
      TargetCapabilities
      → ℕ
      → ℕ
      → Option Attempt
      → CaseExecutionStatus
      → RecoveryDecision Observation
  unfolding decide_uncertain is_attempt_stale
  decide_by_status caps threshold now latest CaseExecutionStatus.pending = decided execute_new
  decide_by_status caps threshold now latest CaseExecutionStatus.retry_pending = decided execute_new
  decide_by_status caps threshold now latest CaseExecutionStatus.running =
      if is_attempt_stale threshold now latest then decide_uncertain caps latest else decided skip
  decide_by_status caps threshold now latest CaseExecutionStatus.unknown =
      decide_uncertain caps latest
  decide_by_status caps threshold now latest CaseExecutionStatus.interrupted =
      decide_uncertain caps latest
  decide_by_status caps threshold now latest CaseExecutionStatus.failed = decided skip
  decide_by_status caps threshold now latest CaseExecutionStatus.complete = decided skip
  decide_by_status caps threshold now latest CaseExecutionStatus.target_complete =
      decided mark_unknown
  decide_by_status caps threshold now latest CaseExecutionStatus.scoring = decided mark_unknown
  decide_by_status caps threshold now latest (CaseExecutionStatus.other s) = decided mark_unknown

module _ {Response Observation : Type 0} where
  normalize_parsed : Sources Response Observation → String → Option Response → Option Observation
  normalize_parsed src request_id none = none
  normalize_parsed src request_id (some r) = src.normalize r request_id

  renormalize_fetched :
      Sources Response Observation → String → Fetched Response → Option Observation
  unfolding normalize_parsed
  renormalize_fetched src request_id missing = none
  renormalize_fetched src request_id raised = none
  renormalize_fetched src request_id (found d) =
      if d.is_object then normalize_parsed src request_id (parse_raw_response d) else none

  -- `_try_renormalize`; an exception of the normalizer is caught and logged there.
  unfoldable pub try_renormalize :
      Sources Response Observation → String → String → Option Observation
  unfolding renormalize_fetched
  try_renormalize src artifact_id request_id =
      renormalize_fetched src request_id (src.fetch artifact_id)

  -- The renormalization of an attempt, where it has a raw response.
  unfoldable pub renormalize_attempt :
      Sources Response Observation → Attempt → Option String → Option Observation
  renormalize_attempt src a none = none
  renormalize_attempt src a (some artifact_id) = try_renormalize src artifact_id a.request_id

  or_renormalized :
      Sources Response Observation
      → Attempt
      → RecoveryDecision Observation
      → RecoveryDecision Observation
  unfolding renormalize_attempt
  or_renormalized src a rest = elim (renormalize_attempt src a a.raw_response_artifact_id) [
    | some o ↦ record { action = renormalize_raw; observation = some o; fallback_action = none }
    | none ↦ rest
  ]

  -- The two durable results, in their order, for the latest attempt.
  unfoldable pub or_durable :
      Sources Response Observation
      → Option Attempt
      → RecoveryDecision Observation
      → RecoveryDecision Observation
  unfolding or_renormalized
  or_durable src none rest = rest
  or_durable src (some a) rest = elim (src.find_observation a.attempt_number) [
    | some o ↦ record { action = reuse_observation; observation = some o; fallback_action = none }
    | none ↦ or_renormalized src a rest
  ]

  -- `decide_recovery`
  unfoldable pub decide_recovery :
      Sources Response Observation
      → ℕ
      → ℕ
      → CaseExecutionStatus
      → Option Attempt
      → RecoveryDecision Observation
  unfolding or_durable decide_by_status
  decide_recovery src threshold now CaseExecutionStatus.complete latest = decided skip
  decide_recovery src threshold now status latest =
      or_durable src latest (decide_by_status src.capabilities threshold now latest status)

  normalize_recovered :
      Sources Response Observation
      → String
      → RequestStatus
      → Option Response
      → Option (Option Observation)
  normalize_recovered src request_id completed none = some none
  normalize_recovered src request_id completed (some r) = elim (src.normalize r request_id) [
    | none ↦ none
    | some o ↦ some (some o)
  ]
  normalize_recovered src request_id _ response = some none

  recover_attempt : Sources Response Observation → Option Attempt → Option (Option Observation)
  unfolding normalize_recovered
  recover_attempt src none = some none
  recover_attempt src (some a) = elim (src.recover a.request_id) [
    | none ↦ some none
    | some result ↦ normalize_recovered src a.request_id result.status result.response
  ]

  -- `execute_recovery`; the outer `none` is an exception of the normalizer, which this path does
  -- not catch.
  unfoldable pub execute_recovery :
      Sources Response Observation
      → RecoveryDecision Observation
      → Option Attempt
      → Option (Option Observation)
  unfolding recover_attempt
  execute_recovery src d latest = elim d.action [
    | reuse_observation ↦ some d.observation
    | renormalize_raw ↦ some d.observation
    | recover_request ↦ recover_attempt src latest
    | _ ↦ some none
  ]
