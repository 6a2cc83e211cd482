-- ===== src/Examples/Runs.antt =====
-- Runs that end (src/rag_eval/execution/engine.py).
use rag_eval.Prelude.{◌+◌, ◌<◌, ◌≡◌, true, none, some, List, [], ◌∷◌, refl, arith}
use rag_eval.Execution.Store.{CaseExecutionStatus}
use rag_eval.Execution.Runs.{
  RunStatus-discrete, RunRow, pending, running, completed_with_errors, run_verdict, set_run_running,
  claim_run_running, summarize_execution,
}

-- One case that is complete, one that failed, and one that another executor may still run.
abbrev cases : List CaseExecutionStatus
cases = CaseExecutionStatus.complete ∷ CaseExecutionStatus.failed ∷ CaseExecutionStatus.running ∷ []

abbrev settled : List CaseExecutionStatus
settled = CaseExecutionStatus.complete ∷ CaseExecutionStatus.failed ∷ []

abbrev waiting : RunRow
waiting = record {
  status = pending;
  status_reason = none;
  started_at = none;
  finished_at = none;
  paused_at = none;
  interrupted_at = none;
}

abbrev claimed : RunRow
claimed = record waiting { status = running; started_at = some 1000 }

run_verdict_test : run_verdict true settled ≡ completed_with_errors
unfolding run_verdict
run_verdict_test = refl

claims : set_run_running 1000 waiting ≡ some claimed
unfolding set_run_running claim_run_running RunStatus-discrete
claims = refl

two_of_three :
    (summarize_execution cases).completed_cases + (summarize_execution cases).failed_cases
    < (summarize_execution cases).total_cases
unfolding summarize_execution
two_of_three = omega arith
