-- ===== src/Examples/Pool.antt =====
-- A pool of one worker (src/rag_eval/execution/engine.py).
use rag_eval.Prelude.{◌<◌, ◌≡◌, ◌↔◌, ◌⊎◌, true, none, some, List, [], ◌∷◌, refl, arith}
use rag_eval.Execution.Selection.{Item}
use rag_eval.Execution.Pool.{
  Pool, idle, busy, returned, new_pool, Step, takes, stops, ends, Reachable, starts, goes_on,
  any_failed,
}
use rag_eval.Execution.Pool.Laws.{AllReturned, pool_runs_each_case_once}
use rag_eval.Execution.Pool.Progress.{work_left, pool_finishes}

abbrev selected : List Item
selected = ("c1", "e1") ∷ []

abbrev at_start : Pool
at_start = record {
  queue = some ("c1", "e1") ∷ none ∷ [];
  workers = idle 0 ∷ [];
  started = [];
  raised = 0;
}

abbrev at_case : Pool
at_case = record at_start {
  queue = none ∷ [];
  workers = busy ("c1", "e1") 0 ∷ [];
  started = selected;
}

abbrev after_case : Pool
after_case = record at_case { workers = idle 1 ∷ []; raised = 1 }

abbrev at_end : Pool
at_end = record after_case { queue = []; workers = returned 1 ∷ [] }

at_start-Reachable : Reachable 3 selected at_start
unfolding new_pool
at_start-Reachable = starts

at_case-Reachable : Reachable 3 selected at_case
at_case-Reachable =
    goes_on at_start-Reachable (takes [] [] 0 ("c1", "e1") (none ∷ []) refl refl refl)

after_case-Reachable : Reachable 3 selected after_case
after_case-Reachable = goes_on at_case-Reachable (ends [] [] 0 ("c1", "e1") true refl refl)

at_end-Reachable : Reachable 3 selected at_end
at_end-Reachable = goes_on after_case-Reachable (stops [] [] 1 [] refl refl refl)

pool_runs_each_case_once_example :
    (at_end.started ≡ selected)
    × (at_end.queue ≡ [])
    × ((any_failed at_end ≡ true) ↔ (0 < at_end.raised))
pool_runs_each_case_once_example =
    pool_runs_each_case_once 3 selected at_end (omega arith) at_end-Reachable refl

pool_finishes_example :
    ((p' : Pool) → Step at_case p' → work_left p' < work_left at_case)
    × (AllReturned at_case ⊎ ((p' : Pool) × Step at_case p'))
pool_finishes_example = pool_finishes 3 selected at_case at_case-Reachable
