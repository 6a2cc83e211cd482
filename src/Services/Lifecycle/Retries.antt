-- ===== src/Services/Lifecycle/Retries.antt =====
-- What `retry_failed_cases` of src/rag_eval/services/test_service.py prepares for the executor.
use rag_eval.Prelude.{
  ℕ, ◌+◌, ◌<◌, ◌≡◌, true, some, is_some, String, List, [], ◌∷◌, map, keep, count_if, length, refl,
  arith,
}
use rag_eval.Execution.Cases.{CaseRow, update_case_execution_status, statuses}
use rag_eval.Execution.Runs.{
  column, update_run_lifecycle, claim_run_running, set_run_running, is_complete, is_failed,
  is_pending,
}
use rag_eval.Services.Lifecycle.{Run, retry_failed_cases, failed_cases, reset_failed}

-- The complete cases of a run.
abbrev pub complete_cases : List CaseRow → List CaseRow
complete_cases cases = keep (λ c. is_complete c.status) cases

counts_of_reset :
    (cases : List CaseRow)
    → (count_if is_failed (statuses (map reset_failed cases)) ≡ 0)
      × (count_if is_pending (statuses (map reset_failed cases))
          ≡ count_if is_pending (statuses cases) + count_if is_failed (statuses cases))
      × (complete_cases (map reset_failed cases) ≡ complete_cases cases)
unfolding reset_failed update_case_execution_status
counts_of_reset [] = (refl, refl, refl)
counts_of_reset (c ∷ cases) = ground (arith, counts_of_reset cases)

length-failed_cases :
    (cases : List CaseRow) → length (failed_cases cases) ≡ count_if is_failed (statuses cases)
unfolding failed_cases
length-failed_cases [] = refl
length-failed_cases (c ∷ cases) = ground (arith, length-failed_cases cases)

-- When the service resets the failed cases of a run, there is at least one, the answer lists exactly
-- the ids of those that failed, none is failed afterwards, each of them is pending, the complete
-- cases are untouched, and an executor can claim the run.
pub retry_failed_cases_prepares :
    (now : ℕ) (r r' : Run) (ids : List String)
    → retry_failed_cases r ≡ some (r', ids)
    → (ids ≡ map (λ c. c.case_execution_id) (failed_cases r.cases))
      × (0 < count_if is_failed (statuses r.cases))
      × (count_if is_failed (statuses r'.cases) ≡ 0)
      × (count_if is_pending (statuses r'.cases)
          ≡ count_if is_pending (statuses r.cases) + count_if is_failed (statuses r.cases))
      × (complete_cases r'.cases ≡ complete_cases r.cases)
      × (is_some (set_run_running now r'.row) ≡ true)
unfolding retry_failed_cases set_run_running claim_run_running update_run_lifecycle column
retry_failed_cases_prepares now r r' ids e =
    ground (arith, counts_of_reset r.cases, length-failed_cases r.cases)
