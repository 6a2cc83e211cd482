-- ===== src/Execution/Cases.antt =====
-- The rows of a run's cases, in src/rag_eval/db/test_models.py and src/rag_eval/db/test_repository.py.
use rag_eval.Prelude.{ℕ, Bool, true, false, Option, String, List, map}
use rag_eval.Execution.Store.{CaseExecutionStatus}
use rag_eval.Execution.Runs.{column}

-- `class CaseExecutionRecord`: the columns that the life cycle writes.
pub record CaseRow : Type 0 where
  pub case_execution_id : String
  pub case_id : String
  pub status : CaseExecutionStatus
  pub started_at : Option ℕ
  pub finished_at : Option ℕ

-- `update_case_execution_status`
unfoldable pub update_case_execution_status :
    CaseExecutionStatus → Option ℕ → Option ℕ → Bool → CaseRow → CaseRow
update_case_execution_status status started finished clear c = record c {
  status = status;
  started_at = column false started c.started_at;
  finished_at = column clear finished c.finished_at;
}

abbrev pub is_running : CaseExecutionStatus → Bool
is_running CaseExecutionStatus.running = true
is_running _ = false

-- The statuses of the cases.
abbrev pub statuses : List CaseRow → List CaseExecutionStatus
statuses = map (λ c. c.status)
