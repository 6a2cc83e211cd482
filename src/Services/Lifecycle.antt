-- ===== src/Services/Lifecycle.antt =====
-- The life cycle of a run: pause, resume, retry, recover and cancel of
-- src/rag_eval/services/test_service.py, with what the executor of src/rag_eval/execution/engine.py
-- does to the same rows.
--
-- A run is its row, the rows of its cases in the order of the query, and its events. A function
-- returns `none` where the source raises. The executor's transactions on a case may come at any
-- time, since it works in sessions of its own.
pub mod Steps
pub mod Cancel
pub mod Retries
use rag_eval.Prelude.{
  ℕ, ◌+◌, ◌*◌, Bool, true, false, not, ◌&&◌, ◌||◌, Option, none, some, String, List, [], ◌∷◌, ◌++◌,
  map, ◌==◌, str_eq, any, keep, count_if, length, if◌then◌else◌,
}
use rag_eval.Execution.Store.{CaseExecutionStatus}
use rag_eval.Execution.Cases.{CaseRow, update_case_execution_status, is_running}
use rag_eval.Execution.Runs.{
  RunStatus, created, pending, running, pausing, paused, interrupted, complete, failed,
  completed_with_errors, cancelled, RunRow, no_changes, column, replaced, update_run_lifecycle,
  same_status, is_complete, is_failed, is_pending,
}

pub record Run : Type 0 where
  pub row : RunRow
  pub cases : List CaseRow
  pub events : List String

-- `_append_event`
abbrev pub append_event : String → Run → Run
append_event e r = record r { events = r.events ++ (e ∷ []) }

abbrev pub cancelled_case : CaseExecutionStatus
cancelled_case = CaseExecutionStatus.other "CANCELLED"

abbrev pub is_cancelled : CaseExecutionStatus → Bool
is_cancelled (CaseExecutionStatus.other s) = str_eq s "CANCELLED"
is_cancelled _ = false

-- `TERMINAL_RUN_STATES`
abbrev pub is_terminal : RunStatus → Bool
is_terminal complete = true
is_terminal completed_with_errors = true
is_terminal failed = true
is_terminal cancelled = true
is_terminal _ = false

-- What `start_run` writes, for the given execution ids and case ids.
unfoldable pub start_run : List (String × String) → Run
start_run ids = record {
  row = record {
    status = pending;
    status_reason = none;
    started_at = none;
    finished_at = none;
    paused_at = none;
    interrupted_at = none;
  };
  cases =
      map
        (λ (id, case). record {
          case_execution_id = id;
          case_id = case;
          status = CaseExecutionStatus.pending;
          started_at = none;
          finished_at = none;
        })
        ids;
  events = "RUN_CREATED" ∷ "RUN_QUEUED" ∷ [];
}

pause_now : ℕ → Run → Run
pause_now now r = append_event "RUN_PAUSED" (record r {
  row =
      update_run_lifecycle (record no_changes { status = some paused; paused_at = some now }) r.row;
})

request_pause : Run → Run
request_pause r =
    append_event "RUN_PAUSE_REQUESTED"
      (record r { row = update_run_lifecycle (record no_changes { status = some pausing }) r.row })

-- `pause_run`
unfoldable pub pause_run : ℕ → Run → Option Run
unfolding pause_now request_pause
pause_run now r = elim r.row.status [
  | paused ↦ some r
  | created ↦ some (pause_now now r)
  | pending ↦ some (pause_now now r)
  | running ↦ some (request_pause r)
  | pausing ↦ some r
  | _ ↦ none
]

-- `resume_run`
unfoldable pub resume_run : Run → Option Run
resume_run r =
    if same_status r.row.status paused
    then some (
        append_event "RUN_RESUMED" (record r {
          row =
              update_run_lifecycle
                (record no_changes {
                  status = some pending;
                  clear_paused_at = true;
                  clear_status_reason = true;
                })
                r.row;
        }))
    else none

-- The failed cases of a run, and the cases once these are reset.
unfoldable pub failed_cases : List CaseRow → List CaseRow
failed_cases cases = keep (λ c. is_failed c.status) cases

unfoldable pub reset_failed : CaseRow → CaseRow
reset_failed c =
    if is_failed c.status
    then update_case_execution_status CaseExecutionStatus.pending none none true c
    else c

has_cases : List CaseRow → Bool
has_cases [] = false
has_cases (c ∷ cases) = true

-- `retry_failed_cases`: the run, and the cases that it lets the executor run.
unfoldable pub retry_failed_cases : Run → Option (Run × List String)
unfolding has_cases
retry_failed_cases r =
    if (same_status r.row.status failed || same_status r.row.status completed_with_errors)
      && has_cases (failed_cases r.cases)
    then some (
      append_event "FAILED_CASES_RETRY_REQUESTED" (record r {
        row =
            update_run_lifecycle
              (record no_changes {
                status = some pending;
                clear_finished_at = true;
                clear_status_reason = true;
              })
              r.row;
        cases = map reset_failed r.cases;
      }),
      map (λ c. c.case_execution_id) (failed_cases r.cases),
    )
    else none

unfoldable pub interrupt_case : CaseRow → CaseRow
interrupt_case c =
    if is_running c.status
    then update_case_execution_status CaseExecutionStatus.interrupted none none false c
    else c

-- `recover_run`
unfoldable pub recover_run : Run → Option Run
recover_run r =
    if same_status r.row.status interrupted
    then some (
        append_event "RUN_RECOVERY_REQUESTED" (record r {
          row =
              update_run_lifecycle
                (record no_changes {
                  status = some pending;
                  clear_interrupted_at = true;
                  clear_status_reason = true;
                })
                r.row;
          cases = map interrupt_case r.cases;
        }))
    else none

unfoldable pub cancel_case : ℕ → CaseRow → CaseRow
cancel_case now c =
    if is_complete c.status || is_failed c.status || is_cancelled c.status
    then c
    else update_case_execution_status cancelled_case none (some now) false c

cancel_now : ℕ → Run → Run
cancel_now now r = append_event "RUN_CANCELLED" (record r {
  row =
      update_run_lifecycle
        (record no_changes {
          status = some cancelled;
          finished_at = some now;
          clear_paused_at = true;
          clear_interrupted_at = true;
        })
        r.row;
  cases = map (cancel_case now) r.cases;
})

-- `cancel_run`
unfoldable pub cancel_run : ℕ → Run → Option Run
unfolding cancel_now
cancel_run now r =
    if same_status r.row.status cancelled
    then some r
    else (if same_status r.row.status complete then none else some (cancel_now now r))

-- `_mark_run_failed`, for the error text that it cuts.
unfoldable pub mark_run_failed : ℕ → String → Run → Run
mark_run_failed now reason r =
    if is_terminal r.row.status
    then r
    else append_event "RUN_FAILED" (record r {
      row =
          update_run_lifecycle
            (record no_changes {
              status = some failed;
              status_reason = some reason;
              finished_at = some now;
            })
            r.row;
    })

-- The states that `execute_run` admits.
unfoldable pub admits_execution : RunStatus → Bool
admits_execution s =
    same_status s pending
    || same_status s failed
    || same_status s running
    || same_status s interrupted
    || same_status s completed_with_errors
