-- ===== src/Services/Lifecycle/Cancel.antt =====
-- What becomes of the cases and of the executors of a run that is cancelled, paused or retried
-- (src/rag_eval/services/test_service.py).
use rag_eval.Prelude.{
  ℕ, ◌<◌, ◌≡◌, ◌≢◌, Bool, true, false, ◌||◌, none, some, String, List, [], ◌∷◌, All, map, count_if,
  refl, arith,
}
use rag_eval.Execution.Cases.{CaseRow, update_case_execution_status, statuses}
use rag_eval.Execution.Runs.{
  running, pausing, paused, cancelled, column, update_run_lifecycle, claim_run_running,
  set_run_running, finish_run, run_verdict, is_complete, is_failed, is_unfinished,
}
use rag_eval.Services.Lifecycle.{
  Run, is_cancelled, cancel_case, cancel_run, pause_run, resume_run, retry_failed_cases,
  recover_run, mark_run_failed, admits_execution,
}
use rag_eval.Services.Lifecycle.Steps.{finished}

-- A case that is over: complete, failed or cancelled.
abbrev pub IsOver : CaseRow → Type 0
IsOver c = (is_complete c.status || is_failed c.status || is_cancelled c.status) ≡ true

cancel_case-IsOver : (now : ℕ) (c : CaseRow) → IsOver (cancel_case now c)
unfolding cancel_case update_case_execution_status
cancel_case-IsOver now c = ground arith

cancelled-IsOver : (now : ℕ) (cases : List CaseRow) → All IsOver (map (cancel_case now) cases)
cancelled-IsOver now [] = tt
cancelled-IsOver now (c ∷ cases) = (cancel_case-IsOver now c, cancelled-IsOver now cases)

-- A run that the service has cancelled: nothing that the service or an executor asks for succeeds,
-- and an abort of the execution leaves it alone.
pub cancelled_run_stays :
    (now : ℕ) (reason : String) (r : Run)
    → r.row.status ≡ cancelled
    → (pause_run now r ≡ none)
      × (resume_run r ≡ none)
      × (retry_failed_cases r ≡ none)
      × (recover_run r ≡ none)
      × (cancel_run now r ≡ some r)
      × (admits_execution r.row.status ≡ false)
      × (set_run_running now r.row ≡ none)
      × (mark_run_failed now reason r ≡ r)
unfolding pause_run resume_run retry_failed_cases recover_run cancel_run admits_execution
    set_run_running claim_run_running mark_run_failed
cancelled_run_stays now reason r h = ground arith

unfinished_of_cancelled :
    (now : ℕ) (cases : List CaseRow)
    → 0 < count_if is_unfinished (statuses cases)
    → 0 < count_if is_unfinished (statuses (map (cancel_case now) cases))
unfolding cancel_case update_case_execution_status
unfinished_of_cancelled now [] h = ground arith
unfinished_of_cancelled now (c ∷ cases) h = ground (arith, unfinished_of_cancelled now cases)

-- An executor that ends after its run was cancelled revives the run: where some case was neither
-- complete nor failed when the run was cancelled, and the executor has since left the cases alone,
-- the run goes from CANCELLED back to RUNNING and loses its finishing time.
pub cancelled_run_revives :
    (any_failure : Bool) (now later : ℕ) (r r' : Run)
    → 0 < count_if is_unfinished (statuses r.cases)
    → r.row.status ≡ running
    → cancel_run now r ≡ some r'
    → (r'.row.status ≡ cancelled)
      × ((finished any_failure later r').row.status ≡ running)
      × ((finished any_failure later r').row.finished_at ≡ none)
unfolding cancel_run finish_run run_verdict update_run_lifecycle column
cancelled_run_revives any_failure now later r r' u h e =
    ground (arith, unfinished_of_cancelled now r.cases)

counts_of_cancelled :
    (now : ℕ) (cases : List CaseRow)
    → (count_if is_complete (statuses (map (cancel_case now) cases))
        ≡ count_if is_complete (statuses cases))
      × (count_if is_failed (statuses (map (cancel_case now) cases))
          ≡ count_if is_failed (statuses cases))
unfolding cancel_case update_case_execution_status
counts_of_cancelled now [] = (refl, refl)
counts_of_cancelled now (c ∷ cases) = ground (arith, counts_of_cancelled now cases)

-- When the service cancels a run that was not cancelled before, every case of the run is over
-- (complete, failed or cancelled), as many cases are complete and as many failed as before, and the
-- run has its finishing time and is neither paused nor interrupted.
pub cancel_run_settles :
    (now : ℕ) (r r' : Run)
    → r.row.status ≢ cancelled
    → cancel_run now r ≡ some r'
    → All IsOver r'.cases
      × (count_if is_complete (statuses r'.cases) ≡ count_if is_complete (statuses r.cases))
      × (count_if is_failed (statuses r'.cases) ≡ count_if is_failed (statuses r.cases))
      × (r'.row.status ≡ cancelled)
      × (r'.row.finished_at ≡ some now)
      × (r'.row.paused_at ≡ none)
      × (r'.row.interrupted_at ≡ none)
unfolding cancel_run update_run_lifecycle column
cancel_run_settles now r r' h e =
    ground (arith, cancelled-IsOver now r.cases, counts_of_cancelled now r.cases)

-- A pause that is asked of a RUNNING run is never carried out: the run cannot be resumed, recovered,
-- retried or executed from there, asking again changes nothing, and the executor that holds the run
-- ends it without looking at the request, never as PAUSED.
pub pause_request_is_lost :
    (any_failure : Bool) (now later : ℕ) (r r' : Run)
    → r.row.status ≡ running
    → pause_run now r ≡ some r'
    → (r'.row.status ≡ pausing)
      × (resume_run r' ≡ none)
      × (recover_run r' ≡ none)
      × (retry_failed_cases r' ≡ none)
      × (set_run_running later r'.row ≡ none)
      × (pause_run later r' ≡ some r')
      × ((finished any_failure later r').row.status ≡ run_verdict any_failure (statuses r.cases))
      × ((finished any_failure later r').row.status ≢ paused)
unfolding pause_run resume_run recover_run retry_failed_cases set_run_running claim_run_running
    finish_run run_verdict update_run_lifecycle column
pause_request_is_lost any_failure now later r r' h e = ground arith
