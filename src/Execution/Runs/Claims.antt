-- ===== src/Execution/Runs/Claims.antt =====
-- Who may execute a run (src/rag_eval/execution/engine.py and src/rag_eval/db/test_repository.py).
use rag_eval.Prelude.{ℕ, ◌+◌, ◌<◌, ◌≡◌, Bool, none, some, List, arith}
use rag_eval.Execution.Store.{CaseExecutionStatus}
use rag_eval.Execution.Runs.{
  RunRow, running, update_run_lifecycle, column, claim_run_running, set_run_running, finish_run,
  summarize_execution,
}
use rag_eval.Execution.Runs.Verdict.{run_verdict-cases}

refused_running : (now : ℕ) (r : RunRow) → r.status ≡ running → set_run_running now r ≡ none
unfolding set_run_running claim_run_running
refused_running now r h = ground arith

-- A run that one executor has claimed cannot be claimed again from the state that the claim leaves.
pub claim_is_exclusive :
    (now later : ℕ) (r r' : RunRow)
    → set_run_running now r ≡ some r'
    → set_run_running later r' ≡ none
unfolding set_run_running claim_run_running
claim_is_exclusive now later r r' h = refused_running later r' (ground arith)

-- A run that is finished while some case is neither complete nor failed is left RUNNING, with no
-- finishing time, and the next executor that wants to go on with it is refused.
pub unfinished_run_is_stuck :
    (any_failure : Bool) (now later : ℕ) (cases : List CaseExecutionStatus) (r : RunRow)
    → (summarize_execution cases).completed_cases + (summarize_execution cases).failed_cases
      < (summarize_execution cases).total_cases
    → ((finish_run any_failure now cases r).status ≡ running)
      × ((finish_run any_failure now cases r).finished_at ≡ none)
      × (set_run_running later (finish_run any_failure now cases r) ≡ none)
unfolding finish_run summarize_execution update_run_lifecycle column
unfinished_run_is_stuck any_failure now later cases r h =
    let left = (run_verdict-cases any_failure cases).0.1 h in
    (left, ground arith, refused_running later (finish_run any_failure now cases r) left)
