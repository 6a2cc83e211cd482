-- ===== src/Execution/Executor.antt =====
-- One case under the benchmark executor: `_execute_case` of src/rag_eval/execution/engine.py, with
-- the transactions of Transactions.
--
-- A crash is a run that stops between two transactions; `Commit` (in Commits) has a step for each.
-- `score` is the scoring service; it is `none` where no metric registry is configured, and answers
-- false where it raises.
pub mod Commits
pub mod Guarantees
pub mod Calls
pub mod Durability
use rag_eval.Prelude.{
  ℕ, ◌+◌, Bool, true, false, Option, none, some, String, List, [], ◌∷◌, ◌++◌, if◌then◌else◌,
}
use rag_eval.Execution.Store.{
  CaseExecutionStatus, pending, running, complete, failed, AttemptStatus, response_received,
  permanent_failure, Attempt, CaseStore, latest_attempt, get_attempt, update_attempt, highest,
  get_observation, has_error,
}
use rag_eval.Execution.Recovery.{
  RecoveryAction, RecoveryDecision, TargetCapabilities, RequestRecoveryResult, Fetched, Sources,
  skip, recover_request, decide_recovery, execute_recovery, decided,
}
use rag_eval.Execution.Transactions.{
  Inputs, Outcome, Registration, attach_response, complete_case, completed_attempt, completed_state,
  contact_target, duplicate, fail_case, failed_attempt, insert_observation, new_attempt,
  next_attempt_number, not_pending, persist_raw_response, raised, register_attempt, registered,
  reset_case, returned,
}

-- What the executor reads from outside, beside the durable state.
pub record World (Response : Type 0) (Observation : Type 0) : Type 0 where
  pub fetch : String → Fetched Response
  pub normalize : Response → String → Option Observation
  pub recover : String → Option (RequestRecoveryResult Response)
  pub capabilities : TargetCapabilities
  pub score : Option (Observation → Bool)

-- The staleness threshold that the executor leaves at its default, 300 seconds.
abbrev pub staleness_threshold : ℕ
staleness_threshold = 300000

module _ {Observation : Type 0} where
  -- The decision that stands after a lookup of the request, by what the lookup gave.
  after_lookup :
      RecoveryDecision Observation
      → Option (Option Observation)
      → Option (RecoveryDecision Observation)
  after_lookup d none = none
  after_lookup d (some (some o)) = some (record d { observation = some o })
  after_lookup d (some none) = some (elim d.fallback_action [ none ↦ d | some a ↦ decided a ])

module _ {Response Observation : Type 0} where
  -- The recovery service's view of the durable state.
  abbrev pub sources_of :
      World Response Observation → CaseStore Observation → Sources Response Observation
  sources_of w s = record {
    find_observation = λ n. get_observation n s.observations;
    fetch = w.fetch;
    normalize = w.normalize;
    recover = w.recover;
    capabilities = w.capabilities;
  }

  -- `_decide_recovery` of the executor, which looks the request up at once; `none` is an exception.
  unfoldable pub decide :
      World Response Observation → ℕ → CaseStore Observation → Option (RecoveryDecision Observation)
  unfolding after_lookup
  decide w now s =
      let latest = latest_attempt s.attempts in
      let d = decide_recovery (sources_of w s) staleness_threshold now s.status latest in
      elim d.action [
        | recover_request ↦ after_lookup d (execute_recovery (sources_of w s) d latest)
        | _ ↦ some d
      ]

  -- The end of `_execute_case` with an observation: commit it, or fail the case.
  unfoldable pub conclude :
      World Response Observation
      → ℕ
      → ℕ
      → Option Observation
      → CaseStore Observation
      → CaseStore Observation
  conclude w now n none s = fail_case now (some n) "normalization failed" s
  conclude w now n (some o) s = elim (complete_case w.score now n o s) [
    | none ↦ fail_case now (some n) "completion failed" s
    | some s' ↦ s'
  ]

  -- `_execute_target_call` on a registered attempt, and what follows it.
  unfoldable pub call_target :
      World Response Observation
      → Inputs Response
      → ℕ
      → Outcome Response
      → CaseStore Observation
      → CaseStore Observation
  unfolding conclude
  call_target w inp n (raised message) s = fail_case inp.now (some n) message (contact_target s)
  call_target w inp n (returned r) s =
      conclude w inp.now n (w.normalize r inp.fresh_request_id)
        (persist_raw_response n inp.response_artifact_id (contact_target s))

  -- The path of `_execute_case` without a recovered observation.
  unfoldable pub attempt_anew :
      World Response Observation → Inputs Response → CaseStore Observation → CaseStore Observation
  unfolding call_target
  attempt_anew w inp s =
      let s' = reset_case s in
      let n = next_attempt_number s' in
      elim (register_attempt inp n s') [
        | not_pending ↦ s'
        | duplicate ↦ fail_case inp.now (some n) "attempt already exists" s'
        | registered s'' ↦ call_target w inp n inp.outcome s''
      ]

  -- The path of `_execute_case` with one.
  unfoldable pub adopt :
      World Response Observation
      → ℕ
      → Option Attempt
      → Observation
      → CaseStore Observation
      → CaseStore Observation
  unfolding conclude
  adopt w now none o s = fail_case now none "recovered observation has no owning attempt" s
  adopt w now (some a) o s = conclude w now a.attempt_number (some o) s

  unfoldable pub follow :
      World Response Observation
      → Inputs Response
      → CaseStore Observation
      → RecoveryDecision Observation
      → CaseStore Observation
  unfolding attempt_anew adopt
  follow w inp s d = elim d.action [
    | skip ↦ s
    | _ ↦ elim d.observation [
      | some o ↦ adopt w inp.now (latest_attempt s.attempts) o s
      | none ↦ attempt_anew w inp s
    ]
  ]

  -- `_execute_case`
  unfoldable pub execute_case :
      World Response Observation → Inputs Response → CaseStore Observation → CaseStore Observation
  unfolding follow
  execute_case w inp s = elim (decide w inp.now s) [
    | none ↦ fail_case inp.now none "recovery failed" s
    | some d ↦ follow w inp s d
  ]
