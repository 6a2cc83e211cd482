-- ===== src/Execution/Runs/Verdict.antt =====
-- What `_finish_run` of src/rag_eval/execution/engine.py makes of the cases' statuses.
use rag_eval.Prelude.{
  ◌+◌, ◌<◌, ◌≡◌, ◌↔◌, ◌⊎◌, Bool, true, false, List, [], ◌∷◌, count_if, length, refl, arith,
}
use rag_eval.Execution.Store.{CaseExecutionStatus}
use rag_eval.Execution.Runs.{
  running, complete, failed, completed_with_errors, is_complete, is_failed, is_unfinished,
  run_verdict,
}

partition :
    (cases : List CaseExecutionStatus)
    → count_if is_complete cases + count_if is_failed cases + count_if is_unfinished cases
      ≡ length cases
partition [] = refl
partition (CaseExecutionStatus.complete ∷ cases) = omega (arith, partition cases)
partition (CaseExecutionStatus.failed ∷ cases) = omega (arith, partition cases)
partition (_ ∷ cases) = omega (arith, partition cases)

-- A run is left RUNNING exactly while some case is neither complete nor failed. Of a run whose cases
-- are all one or the other, it is completed with errors exactly if both kinds occur; failed exactly
-- if only failed cases occur, or none while a worker reported a failure; and complete exactly if
-- all cases are complete and no worker reported a failure.
pub run_verdict-cases :
    (any_failure : Bool) (cases : List CaseExecutionStatus)
    → let c = count_if is_complete cases in
      let f = count_if is_failed cases in
      ((run_verdict any_failure cases ≡ running) ↔ (c + f < length cases))
      × ((run_verdict any_failure cases ≡ completed_with_errors)
          ↔ ((c + f ≡ length cases) × (0 < c) × (0 < f)))
      × ((run_verdict any_failure cases ≡ failed)
          ↔ ((c + f ≡ length cases) × (((c ≡ 0) × (0 < f)) ⊎ ((f ≡ 0) × (any_failure ≡ true)))))
      × ((run_verdict any_failure cases ≡ complete) ↔ ((c ≡ length cases) × (any_failure ≡ false)))
unfolding run_verdict
run_verdict-cases any_failure cases = ground (arith, partition cases)
