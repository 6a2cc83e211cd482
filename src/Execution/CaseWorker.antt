-- ===== src/Execution/CaseWorker.antt =====
-- One case under the resilient worker: `execute` and `_execute_with_recovery` of
-- src/rag_eval/execution/worker.py, above the retry loop of Worker.
--
-- `execute` finds the case's row, reads its latest attempt, asks Recovery and follows the decision.
-- The row exists here; the checks that it belongs to the run and the case are left out. What
-- recovery reads from outside stands in `WorkerWorld`, beside what the retry loop meets.
pub mod Requests
use rag_eval.Prelude.{
  ℕ, ◌+◌, Bool, true, false, Option, none, some, String, List, [], ◌∷◌, if◌then◌else◌,
}
use rag_eval.Execution.Circuit.{CircuitBreaker}
use rag_eval.Execution.Store.{
  CaseExecutionStatus, AttemptStatus, Attempt, CaseStore, latest_attempt, update_attempt,
  get_observation,
}
use rag_eval.Execution.Recovery.{
  RecoveryAction, RecoveryDecision, RequestRecoveryResult, Fetched, Sources, reuse_observation,
  renormalize_raw, recover_request, idempotent_replay, execute_new, skip, mark_unknown,
  decide_recovery, execute_recovery,
}
use rag_eval.Execution.Worker.{Surroundings, Ended, execute_with_retry}

pub record WorkerWorld (Response : Type 0) (Observation : Type 0) : Type 0 where
  pub env : Surroundings Response Observation
  pub fetch : String → Fetched Response
  pub recover : String → Option (RequestRecoveryResult Response)
  pub request_recovery : Bool
  pub staleness_threshold : ℕ
  pub now : ℕ

-- How `execute` ends: with a result of its own (success, observation, attempts made), as the retry
-- loop ends, or with an exception.
pub data CaseEnd (Observation : Type 0) : Type 0 where
  result : Bool → Option Observation → ℕ → CaseEnd Observation
  retried : Ended Observation → CaseEnd Observation
  raised : CaseEnd Observation

abbrev pub CaseRun : Type 0 → Type 0
CaseRun Observation = CaseEnd Observation × CaseStore Observation × CircuitBreaker

-- The row of an attempt that a repair writes.
repaired_attempt : ℕ → Attempt → Attempt
repaired_attempt now a = record a {
  status = AttemptStatus.response_received;
  finished_at = some now;
  updated_at = some now;
  retryable = some false;
  error_summary = none;
}

-- `attempts_made`
abbrev pub attempts_made : Option Attempt → ℕ
attempts_made none = 0
attempts_made (some a) = a.attempt_number

-- The success of a skipped case.
abbrev pub skipped_success : CaseExecutionStatus → Bool
skipped_success CaseExecutionStatus.complete = true
skipped_success CaseExecutionStatus.target_complete = true
skipped_success _ = false

module _ {Observation : Type 0} where
  -- `_repair_target_complete_state`
  unfoldable pub repair_target_complete_state :
      ℕ → Option Attempt → CaseStore Observation → CaseStore Observation
  unfolding repaired_attempt
  repair_target_complete_state now attempt s = record s {
    status = CaseExecutionStatus.target_complete;
    finished_at = some now;
    attempts = elim attempt [
      | none ↦ s.attempts
      | some a ↦ update_attempt a.attempt_number (repaired_attempt now) s.attempts
    ];
  }

  -- `_persist_recovered_observation`
  unfoldable pub persist_recovered_observation :
      ℕ → ℕ → Observation → CaseStore Observation → CaseStore Observation
  unfolding repaired_attempt
  persist_recovered_observation now n o s = record s {
    status = CaseExecutionStatus.target_complete;
    finished_at = some now;
    observations = elim (get_observation n s.observations) [
      | none ↦ (n, o) ∷ s.observations
      | some old ↦ s.observations
    ];
    attempts = update_attempt n (repaired_attempt now) s.attempts;
  }

  -- `_mark_unknown`
  unfoldable pub mark_case_unknown : CaseStore Observation → CaseStore Observation
  mark_case_unknown s = record s { status = CaseExecutionStatus.unknown }

module _ {Response Observation : Type 0} (w : WorkerWorld Response Observation) where
  -- The recovery service's view of the durable state.
  abbrev pub worker_sources : CaseStore Observation → Sources Response Observation
  worker_sources s = record {
    find_observation = λ n. get_observation n s.observations;
    fetch = w.fetch;
    normalize = w.env.normalize;
    recover = w.recover;
    capabilities = record {
      idempotency = w.env.idempotency;
      request_recovery = w.request_recovery;
    };
  }

  retry : Option Attempt → Bool → CaseStore Observation → CircuitBreaker → CaseRun Observation
  retry latest replay s b =
      let (ended, s', b') = execute_with_retry w.env (attempts_made latest) latest replay s b in
      (retried ended, s', b')

  leave_unknown : Option Attempt → CaseStore Observation → CircuitBreaker → CaseRun Observation
  leave_unknown latest s b = (result false none (attempts_made latest), mark_case_unknown s, b)

  after_lookup :
      Attempt
      → Option RecoveryAction
      → Option (Option Observation)
      → CaseStore Observation
      → CircuitBreaker
      → CaseRun Observation
  unfolding retry leave_unknown
  after_lookup a fallback none s b = (raised, s, b)
  after_lookup a fallback (some (some o)) s b = (
    result true (some o) a.attempt_number,
    persist_recovered_observation w.now a.attempt_number o s,
    b,
  )
  after_lookup a (some idempotent_replay) (some none) s b = retry (some a) true s b
  after_lookup a _ (some none) s b = leave_unknown (some a) s b

  reuse :
      Option Attempt
      → Option Observation
      → CaseStore Observation
      → CircuitBreaker
      → CaseRun Observation
  reuse latest none s b = (raised, s, b)
  reuse latest (some o) s b =
      (result true (some o) (attempts_made latest), repair_target_complete_state w.now latest s, b)

  renormalized :
      Option Attempt
      → Option Observation
      → CaseStore Observation
      → CircuitBreaker
      → CaseRun Observation
  renormalized latest none s b = (raised, s, b)
  renormalized none (some o) s b = (raised, s, b)
  renormalized (some a) (some o) s b = (
    result true (some o) a.attempt_number,
    persist_recovered_observation w.now a.attempt_number o s,
    b,
  )

  -- The branch of RECOVER_REQUEST; the lookup is `_execute_request_recovery`.
  look_up :
      RecoveryDecision Observation
      → Option Attempt
      → CaseStore Observation
      → CircuitBreaker
      → CaseRun Observation
  unfolding after_lookup leave_unknown
  look_up d none s b = leave_unknown none s b
  look_up d (some a) s b =
      after_lookup a d.fallback_action (execute_recovery (worker_sources s) d (some a)) s b

  replay : Option Attempt → CaseStore Observation → CircuitBreaker → CaseRun Observation
  unfolding retry
  replay none s b = (raised, s, b)
  replay (some a) s b = retry (some a) true s b

  -- `_execute_with_recovery`
  unfoldable pub execute_with_recovery :
      RecoveryDecision Observation
      → Option Attempt
      → CaseStore Observation
      → CircuitBreaker
      → CaseRun Observation
  unfolding reuse renormalized look_up replay retry leave_unknown
  execute_with_recovery d latest s b = elim d.action [
    | skip ↦ (result (skipped_success s.status) d.observation (attempts_made latest), s, b)
    | reuse_observation ↦ reuse latest d.observation s b
    | renormalize_raw ↦ renormalized latest d.observation s b
    | recover_request ↦ look_up d latest s b
    | idempotent_replay ↦ replay latest s b
    | execute_new ↦ retry latest false s b
    | mark_unknown ↦ leave_unknown latest s b
  ]

  -- `execute`
  unfoldable pub execute_worker : CaseStore Observation → CircuitBreaker → CaseRun Observation
  execute_worker s b =
      let latest = latest_attempt s.attempts in
      execute_with_recovery
        (decide_recovery (worker_sources s) w.staleness_threshold w.now s.status latest) latest s b
