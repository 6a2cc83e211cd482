-- ===== src/Examples/Lifecycle.antt =====
-- Runs that are paused, cancelled and retried (src/rag_eval/services/test_service.py).
use rag_eval.Prelude.{◌≡◌, ◌≢◌, false, none, some, String, List, [], ◌∷◌, refl, arith}
use rag_eval.Execution.Store.{CaseExecutionStatus}
use rag_eval.Execution.Cases.{CaseRow, update_case_execution_status}
use rag_eval.Execution.Runs.{
  RunStatus-discrete, RunRow, running, pausing, paused, failed, cancelled, pending, column,
  update_run_lifecycle,
}
use rag_eval.Services.Lifecycle.{
  Run, start_run, pause_run, cancel_run, cancel_case, retry_failed_cases, failed_cases,
  reset_failed,
}
use rag_eval.Services.Lifecycle.Steps.{
  finished, IsSound, Reachable, starts, goes_on, pauses, Reachable-IsSound,
}
use rag_eval.Services.Lifecycle.Cancel.{cancelled_run_revives}

abbrev ids : List (String × String)
ids = ("e1", "c1") ∷ ("e2", "c2") ∷ []

abbrev new_row : RunRow
new_row = record {
  status = pending;
  status_reason = none;
  started_at = none;
  finished_at = none;
  paused_at = none;
  interrupted_at = none;
}

abbrev new_case : String → String → CaseRow
new_case id case = record {
  case_execution_id = id;
  case_id = case;
  status = CaseExecutionStatus.pending;
  started_at = none;
  finished_at = none;
}

abbrev paused_run : Run
paused_run = record {
  row = record new_row { status = paused; paused_at = some 5 };
  cases = new_case "e1" "c1" ∷ new_case "e2" "c2" ∷ [];
  events = "RUN_CREATED" ∷ "RUN_QUEUED" ∷ "RUN_PAUSED" ∷ [];
}

pause_run_test : pause_run 5 (start_run ids) ≡ some paused_run
unfolding pause_run start_run update_run_lifecycle column
pause_run_test = refl

paused_run-Reachable : Reachable paused_run
paused_run-Reachable = goes_on (starts ids) (pauses 5 pause_run_test)

Reachable-IsSound_example : IsSound paused_run.row
Reachable-IsSound_example = Reachable-IsSound paused_run-Reachable

-- A run in execution: one case is complete and one is at the target.
abbrev busy_run : Run
busy_run = record {
  row = record new_row { status = running; started_at = some 10 };
  cases =
      record (new_case "e1" "c1") { status = CaseExecutionStatus.complete; finished_at = some 20 }
      ∷ record (new_case "e2" "c2") { status = CaseExecutionStatus.running; started_at = some 12 }
      ∷ [];
  events = [];
}

abbrev cancelled_run : Run
cancelled_run = record {
  row = record busy_run.row { status = cancelled; finished_at = some 30 };
  cases =
      record (new_case "e1" "c1") { status = CaseExecutionStatus.complete; finished_at = some 20 }
      ∷ record (new_case "e2" "c2") {
        status = CaseExecutionStatus.other "CANCELLED";
        started_at = some 12;
        finished_at = some 30;
      }
      ∷ [];
  events = "RUN_CANCELLED" ∷ [];
}

cancel_run_test : cancel_run 30 busy_run ≡ some cancelled_run
unfolding cancel_run cancel_case update_case_execution_status update_run_lifecycle column
    RunStatus-discrete
cancel_run_test = refl

cancelled_run_revives_example :
    (cancelled_run.row.status ≡ cancelled)
    × ((finished false 40 cancelled_run).row.status ≡ running)
    × ((finished false 40 cancelled_run).row.finished_at ≡ none)
cancelled_run_revives_example =
    cancelled_run_revives false 30 40 busy_run cancelled_run (omega arith) refl cancel_run_test

not_cancelled : running ≢ cancelled
not_cancelled e = ground arith

abbrev pausing_run : Run
pausing_run = record busy_run {
  row = record busy_run.row { status = pausing };
  events = "RUN_PAUSE_REQUESTED" ∷ [];
}

request_test : pause_run 30 busy_run ≡ some pausing_run
unfolding pause_run update_run_lifecycle column
request_test = refl

abbrev failed_run : Run
failed_run = record {
  row = record new_row { status = failed; finished_at = some 50 };
  cases = record (new_case "e1" "c1") { status = CaseExecutionStatus.failed } ∷ [];
  events = [];
}

abbrev retried_run : Run
retried_run = record {
  row = new_row;
  cases = new_case "e1" "c1" ∷ [];
  events = "FAILED_CASES_RETRY_REQUESTED" ∷ [];
}

retry_test : retry_failed_cases failed_run ≡ some (retried_run, "e1" ∷ [])
unfolding retry_failed_cases failed_cases reset_failed update_case_execution_status
    update_run_lifecycle column RunStatus-discrete
retry_test = refl
