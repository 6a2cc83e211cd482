-- ===== src/Execution/Pool.antt =====
-- The worker pool of src/rag_eval/execution/engine.py: `_run_workers` and `_worker`.
--
-- The workers of the pool run
-- interleaved; what `_execute_case` does to its case is in Execution/Executor, and here it only
-- returns or raises, which the environment chooses.
pub mod Laws
pub mod Progress
use rag_eval.Prelude.{
  ℕ, zero, suc, ◌+◌, ◌≡◌, min, Bool, true, false, not, Option, none, some, String, List, [], ◌∷◌,
  ◌++◌, map, str_eq, ltb, keep, count_if, length, indicator, sum, if◌then◌else◌,
}
use rag_eval.Execution.Selection.{Item}
use rag_eval.Metrics.Retrieval.{replicate}

-- Where a worker is: about to ask the queue, in `_execute_case`, or returned; with its failures.
pub data WorkerState : Type 0 where
  idle : ℕ → WorkerState
  busy : Item → ℕ → WorkerState
  returned : ℕ → WorkerState

abbrev pub failures : WorkerState → ℕ
failures (idle n) = n
failures (busy item n) = n
failures (returned n) = n

abbrev pub is_busy : WorkerState → Bool
is_busy (busy item n) = true
is_busy _ = false

abbrev pub has_returned : WorkerState → Bool
has_returned (returned n) = true
has_returned _ = false

-- `started` lists the calls of `_execute_case` in their order, and `raised` counts those that raised.
pub record Pool : Type 0 where
  pub queue : List (Option Item)
  pub workers : List WorkerState
  pub started : List Item
  pub raised : ℕ

-- The pool that `_run_workers` sets up, with a sentinel for every worker.
unfoldable pub new_pool : ℕ → List Item → Pool
new_pool concurrency selected =
    let worker_count = min concurrency (length selected) in
    record {
      queue = map (λ i. some i) selected ++ replicate worker_count none;
      workers = replicate worker_count (idle 0);
      started = [];
      raised = 0;
    }

-- One step of one worker, which stands between `before` and `after`.
pub data Step (p : Pool) (p' : Pool) : Type 0 where
  takes :
      (before after : List WorkerState) (n : ℕ) (item : Item) (q : List (Option Item))
      → p.workers ≡ before ++ idle n ∷ after
      → p.queue ≡ some item ∷ q
      → p' ≡ record p {
        queue = q;
        workers = before ++ busy item n ∷ after;
        started = p.started ++ (item ∷ []);
      }
      → Step p p'
  stops :
      (before after : List WorkerState) (n : ℕ) (q : List (Option Item))
      → p.workers ≡ before ++ idle n ∷ after
      → p.queue ≡ none ∷ q
      → p' ≡ record p { queue = q; workers = before ++ returned n ∷ after }
      → Step p p'
  ends :
      (before after : List WorkerState) (n : ℕ) (item : Item) (raises : Bool)
      → p.workers ≡ before ++ busy item n ∷ after
      → p' ≡ record p {
        workers = before ++ idle (n + indicator raises) ∷ after;
        raised = p.raised + indicator raises;
      }
      → Step p p'

pub data Reachable (concurrency : ℕ) (selected : List Item) : Pool → Type 0 where
  starts : Reachable concurrency selected (new_pool concurrency selected)
  goes_on :
      {p p' : Pool}
      → Reachable concurrency selected p
      → Step p p'
      → Reachable concurrency selected p'

-- `_run_workers`: its answer once every worker has returned.
unfoldable pub any_failed : Pool → Bool
any_failed p = ltb 0 (sum (map failures p.workers))
