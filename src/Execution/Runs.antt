-- ===== src/Execution/Runs.antt =====
-- The run around its cases: `_set_run_running`, `_finish_run` and `_summarize_execution` of
-- src/rag_eval/execution/engine.py, with `claim_run_running` and `update_run_lifecycle` of
-- src/rag_eval/db/test_repository.py.
--
-- The rows of the run's cases are their statuses, in the order of the query. Each function is one
-- transaction on the run's row; the claim is one UPDATE statement, so that two claims never overlap.
pub mod Verdict
pub mod Claims
use rag_eval.Prelude.{
  ℕ, ◌+◌, ◌≤◌, Bool, true, false, not, ◌&&◌, ◌||◌, Option, none, some, String, List, [], ◌∷◌, ◌==◌,
  ltb, any, count_if, length, if◌then◌else◌,
}
use rag_eval.Execution.Store.{CaseExecutionStatus}

-- The run statuses that src/rag_eval/execution/engine.py and src/rag_eval/services/test_service.py
-- name.
pub data RunStatus : Type 0 where
  created pending running pausing paused interrupted : RunStatus
  complete failed completed_with_errors cancelled : RunStatus

unfoldable pub RunStatus-discrete : Discrete RunStatus
RunStatus-discrete = hlevel

abbrev pub same_status : RunStatus → RunStatus → Bool
same_status a b = elim (RunStatus-discrete a b) [ yes p ↦ true | no n ↦ false ]

-- The life-cycle columns of the run's row.
pub record RunRow : Type 0 where
  pub status : RunStatus
  pub status_reason : Option String
  pub started_at : Option ℕ
  pub finished_at : Option ℕ
  pub paused_at : Option ℕ
  pub interrupted_at : Option ℕ

-- The keyword arguments of `update_run_lifecycle`, with its defaults.
pub record Changes : Type 0 where
  pub status : Option RunStatus
  pub status_reason : Option String
  pub started_at : Option ℕ
  pub finished_at : Option ℕ
  pub paused_at : Option ℕ
  pub interrupted_at : Option ℕ
  pub clear_status_reason : Bool
  pub clear_finished_at : Bool
  pub clear_paused_at : Bool
  pub clear_interrupted_at : Bool

abbrev pub no_changes : Changes
no_changes = record {
  status = none;
  status_reason = none;
  started_at = none;
  finished_at = none;
  paused_at = none;
  interrupted_at = none;
  clear_status_reason = false;
  clear_finished_at = false;
  clear_paused_at = false;
  clear_interrupted_at = false;
}

-- What becomes of one column.
unfoldable pub column {ℓ} : {A : Type ℓ} → Bool → Option A → Option A → Option A
column true new old = none
column false none old = old
column false (some v) old = some v

abbrev pub replaced {ℓ} : {A : Type ℓ} → Option A → A → A
replaced none old = old
replaced (some v) old = v

-- `update_run_lifecycle`
unfoldable pub update_run_lifecycle : Changes → RunRow → RunRow
unfolding column
update_run_lifecycle c r = record {
  status = replaced c.status r.status;
  status_reason = column c.clear_status_reason c.status_reason r.status_reason;
  started_at = column false c.started_at r.started_at;
  finished_at = column c.clear_finished_at c.finished_at r.finished_at;
  paused_at = column c.clear_paused_at c.paused_at r.paused_at;
  interrupted_at = column c.clear_interrupted_at c.interrupted_at r.interrupted_at;
}

abbrev pub coalesce : Option ℕ → ℕ → Option ℕ
coalesce none now = some now
coalesce (some t) now = some t

-- `claim_run_running`; `none` is the RunClaimError.
unfoldable pub claim_run_running : List RunStatus → ℕ → RunRow → Option RunRow
claim_run_running allowed now r =
    if any (same_status r.status) allowed
    then some (record r {
      status = running;
      status_reason = none;
      started_at = coalesce r.started_at now;
      finished_at = none;
    })
    else none

-- `_set_run_running`
unfoldable pub set_run_running : ℕ → RunRow → Option RunRow
set_run_running = claim_run_running (pending ∷ failed ∷ interrupted ∷ completed_with_errors ∷ [])

-- The tests on a case's status.
abbrev pub is_complete : CaseExecutionStatus → Bool
is_complete CaseExecutionStatus.complete = true
is_complete _ = false

abbrev pub is_failed : CaseExecutionStatus → Bool
is_failed CaseExecutionStatus.failed = true
is_failed _ = false

abbrev pub is_unfinished : CaseExecutionStatus → Bool
is_unfinished CaseExecutionStatus.complete = false
is_unfinished CaseExecutionStatus.failed = false
is_unfinished _ = true

abbrev pub is_target_complete : CaseExecutionStatus → Bool
is_target_complete CaseExecutionStatus.target_complete = true
is_target_complete _ = false

abbrev pub is_pending : CaseExecutionStatus → Bool
is_pending CaseExecutionStatus.pending = true
is_pending _ = false

-- The status that `_finish_run` chooses.
unfoldable pub run_verdict : Bool → List CaseExecutionStatus → RunStatus
run_verdict any_failure cases =
    let complete_count = count_if is_complete cases in
    let failed_count = count_if is_failed cases in
    let has_partial_success = ltb 0 complete_count && ltb 0 failed_count in
    if ltb 0 (count_if is_unfinished cases)
    then running
    else (if has_partial_success
        then completed_with_errors
        else (if any_failure || ltb 0 failed_count
            then failed
            else (if complete_count == length cases then complete else running)))

-- `_finish_run`
unfoldable pub finish_run : Bool → ℕ → List CaseExecutionStatus → RunRow → RunRow
finish_run any_failure now cases r =
    let status = run_verdict any_failure cases in
    let some_failed = ltb 0 (count_if is_failed cases) in
    update_run_lifecycle
      (record no_changes {
        status = some status;
        status_reason = (if some_failed then some "one or more case executions failed" else none);
        finished_at = (if same_status status running then none else some now);
        clear_finished_at = same_status status running;
        clear_status_reason = not some_failed;
      })
      r

-- `class ExecutionResult`
pub record ExecutionResult : Type 0 where
  pub total_cases : ℕ
  pub completed_cases : ℕ
  pub failed_cases : ℕ
  pub target_complete_cases : ℕ
  pub pending_cases : ℕ

-- `_summarize_execution`; its loop counts each status by itself.
unfoldable pub summarize_execution : List CaseExecutionStatus → ExecutionResult
summarize_execution cases = record {
  total_cases = length cases;
  completed_cases = count_if is_complete cases;
  failed_cases = count_if is_failed cases;
  target_complete_cases = count_if is_target_complete cases;
  pending_cases = count_if is_pending cases;
}
