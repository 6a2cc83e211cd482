-- ===== src/Services/Lifecycle/Steps.antt =====
-- What the service (src/rag_eval/services/test_service.py) and the executors
-- (src/rag_eval/execution/engine.py) do to a run, as steps in any order.
use rag_eval.Prelude.{ℕ, ◌≡◌, ◌≢◌, Bool, true, none, some, is_some, String, List, arith, subst, sym}
use rag_eval.Execution.Store.{CaseExecutionStatus}
use rag_eval.Execution.Cases.{CaseRow, statuses}
use rag_eval.Execution.Runs.{
  paused, interrupted, RunRow, column, update_run_lifecycle, claim_run_running, set_run_running,
  finish_run, run_verdict,
}
use rag_eval.Services.Lifecycle.{
  Run, is_terminal, start_run, pause_run, resume_run, retry_failed_cases, recover_run, cancel_run,
  mark_run_failed,
}

-- The executor's claim and its end, on a run.
abbrev pub finished : Bool → ℕ → Run → Run
finished any_failure now r = record r { row = finish_run any_failure now (statuses r.cases) r.row }

-- One step. An executor may write any of its cases at any time, and may end a run that it claimed
-- long before, whatever has become of the row since.
pub data Step (r : Run) (r' : Run) : Type 0 where
  pauses : (now : ℕ) → pause_run now r ≡ some r' → Step r r'
  resumes : resume_run r ≡ some r' → Step r r'
  retries : (ids : List String) → retry_failed_cases r ≡ some (r', ids) → Step r r'
  recovers : recover_run r ≡ some r' → Step r r'
  cancels : (now : ℕ) → cancel_run now r ≡ some r' → Step r r'
  marks_failed : (now : ℕ) (reason : String) → r' ≡ mark_run_failed now reason r → Step r r'
  claims :
      (now : ℕ) (row : RunRow)
      → set_run_running now r.row ≡ some row
      → r' ≡ record r { row = row }
      → Step r r'
  works : (cases : List CaseRow) → r' ≡ record r { cases = cases } → Step r r'
  finishes : (any_failure : Bool) (now : ℕ) → r' ≡ finished any_failure now r → Step r r'

-- The runs that steps lead to from a new run.
pub data Reachable : Run → Type 0 where
  starts : (ids : List (String × String)) → Reachable (start_run ids)
  goes_on : {r r' : Run} → Reachable r → Step r r' → Reachable r'

-- A run has a finishing time exactly in a terminal state, has a pausing time where it is paused, and
-- is never INTERRUPTED.
abbrev pub IsSound : RunRow → Type 0
IsSound r =
    (is_some r.finished_at ≡ is_terminal r.status)
    × (r.status ≡ paused → is_some r.paused_at ≡ true)
    × (r.status ≢ interrupted)

pause_run-IsSound :
    (now : ℕ) (r r' : Run) → pause_run now r ≡ some r' → IsSound r.row → IsSound r'.row
unfolding pause_run update_run_lifecycle column
pause_run-IsSound now r r' e s = ground arith

resume_run-IsSound : (r r' : Run) → resume_run r ≡ some r' → IsSound r.row → IsSound r'.row
unfolding resume_run update_run_lifecycle column
resume_run-IsSound r r' e s = ground arith

retry-IsSound :
    (r r' : Run) (ids : List String)
    → retry_failed_cases r ≡ some (r', ids)
    → IsSound r.row
    → IsSound r'.row
unfolding retry_failed_cases update_run_lifecycle column
retry-IsSound r r' ids e s = ground arith

recover_run_refuses : (r : Run) → IsSound r.row → recover_run r ≡ none
unfolding recover_run
recover_run_refuses r s = ground arith

cancel_run-IsSound :
    (now : ℕ) (r r' : Run) → cancel_run now r ≡ some r' → IsSound r.row → IsSound r'.row
unfolding cancel_run update_run_lifecycle column
cancel_run-IsSound now r r' e s = ground arith

mark_run_failed-IsSound :
    (now : ℕ) (reason : String) (r : Run)
    → IsSound r.row
    → IsSound (mark_run_failed now reason r).row
unfolding mark_run_failed update_run_lifecycle column
mark_run_failed-IsSound now reason r s = ground arith

claim-IsSound : (now : ℕ) (r r' : RunRow) → set_run_running now r ≡ some r' → IsSound r → IsSound r'
unfolding set_run_running claim_run_running
claim-IsSound now r r' e s = ground arith

finish_run-IsSound :
    (any_failure : Bool) (now : ℕ) (cases : List CaseExecutionStatus) (r : RunRow)
    → IsSound r
    → IsSound (finish_run any_failure now cases r)
unfolding finish_run run_verdict update_run_lifecycle column
finish_run-IsSound any_failure now cases r s = ground arith

Step-IsSound : {r r' : Run} → Step r r' → IsSound r.row → IsSound r'.row
Step-IsSound {r} {r'} (pauses now e) s = pause_run-IsSound now r r' e s
Step-IsSound {r} {r'} (resumes e) s = resume_run-IsSound r r' e s
Step-IsSound {r} {r'} (retries ids e) s = retry-IsSound r r' ids e s
Step-IsSound {r} {r'} (recovers e) s = absurd (ground (arith, recover_run_refuses r s))
Step-IsSound {r} {r'} (cancels now e) s = cancel_run-IsSound now r r' e s
Step-IsSound {r} {r'} (marks_failed now reason e) s =
    subst (λ (x : Run). IsSound x.row) (sym e) (mark_run_failed-IsSound now reason r s)
Step-IsSound {r} {r'} (claims now row e e') s =
    subst (λ (x : Run). IsSound x.row) (sym e') (claim-IsSound now r.row row e s)
Step-IsSound {r} {r'} (works cases e) s = subst (λ (x : Run). IsSound x.row) (sym e) s
Step-IsSound {r} {r'} (finishes any_failure now e) s =
    subst (λ (x : Run). IsSound x.row) (sym e)
      (finish_run-IsSound any_failure now (statuses r.cases) r.row s)

start_run-IsSound : (ids : List (String × String)) → IsSound (start_run ids).row
unfolding start_run
start_run-IsSound ids = ground arith

-- In every run that the service and any number of executors lead to from a new one, in any order and
-- with stray executors included, the row has a finishing time exactly in a terminal state, and has a
-- pausing time where it is PAUSED.
pub Reachable-IsSound : {r : Run} → Reachable r → IsSound r.row
Reachable-IsSound (starts ids) = start_run-IsSound ids
Reachable-IsSound (goes_on h st) = Step-IsSound st (Reachable-IsSound h)

-- No run ever becomes INTERRUPTED, however its executors end, so that `recover_run` refuses every
-- run, and leaves none to its recovery of interrupted cases.
pub recover_run_unreachable :
    (r : Run) → Reachable r → (r.row.status ≢ interrupted) × (recover_run r ≡ none)
recover_run_unreachable r h = let s = Reachable-IsSound h in (s.2, recover_run_refuses r s)
