-- ===== src/Services/Status.antt =====
-- The progress of a run: `get_run_status` of src/rag_eval/services/test_service.py, with
-- `get_run_case_counts` of src/rag_eval/db/test_repository.py.
use rag_eval.Prelude.{
  ℕ, ◌+◌, ◌*◌, ◌≤◌, ◌<◌, ◌≡◌, ◌↔◌, Bool, false, List, [], ◌∷◌, count_if, length, str_eq,
  if◌then◌else◌, ◌==◌, arith,
}
use rag_eval.Execution.Store.{CaseExecutionStatus}
use rag_eval.Execution.Runs.{is_complete, is_failed, is_pending}
use rag_eval.Execution.Cases.{is_running}
use rag_eval.Metrics.Retrieval.{Fraction}

abbrev pub is_created : CaseExecutionStatus → Bool
is_created (CaseExecutionStatus.other s) = str_eq s "CREATED"
is_created _ = false

-- The part of the answer that is counted; the progress is an exact percentage.
pub record RunProgress : Type 0 where
  pub total_cases : ℕ
  pub complete_cases : ℕ
  pub failed_cases : ℕ
  pub pending_cases : ℕ
  pub running_cases : ℕ
  pub progress_percent : Fraction

-- `get_run_status`: a count of the query is the number of the cases with that status.
unfoldable pub get_run_status : List CaseExecutionStatus → RunProgress
get_run_status cases =
    let total = length cases in
    let done = count_if is_complete cases + count_if is_failed cases in
    record {
      total_cases = total;
      complete_cases = count_if is_complete cases;
      failed_cases = count_if is_failed cases;
      pending_cases = count_if is_pending cases + count_if is_created cases;
      running_cases = count_if is_running cases;
      progress_percent =
          (if total == 0
            then record { num = 0; den = 1 }
            else (record { num = done * 100; den = total }));
    }

counted :
    (cases : List CaseExecutionStatus)
    → count_if is_complete cases
        + count_if is_failed cases
        + (count_if is_pending cases + count_if is_created cases)
        + count_if is_running cases
      ≤ length cases
counted [] = omega arith
counted (c ∷ cases) = ground (arith, counted cases)

-- The four counts of a run's status never exceed the number of its cases together, the progress is
-- at most 100 percent, and it is 100 percent exactly when the run has a case and every case is
-- complete or failed.
pub get_run_status_counts :
    (cases : List CaseExecutionStatus)
    → let s = get_run_status cases in
      (s.complete_cases + s.failed_cases + s.pending_cases + s.running_cases ≤ s.total_cases)
      × (s.progress_percent.num ≤ 100 * s.progress_percent.den)
      × ((s.progress_percent.num ≡ 100 * s.progress_percent.den)
          ↔ ((0 < s.total_cases) × (s.complete_cases + s.failed_cases ≡ s.total_cases)))
unfolding get_run_status
get_run_status_counts cases = ground (arith, counted cases)
