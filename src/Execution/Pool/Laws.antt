-- ===== src/Execution/Pool/Laws.antt =====
-- The invariant of the worker pool of src/rag_eval/execution/engine.py.
use rag_eval.Prelude.{
  ℕ, zero, suc, ◌↔◌, ◌⊎◌, inl, inr, ◌+◌, ◌<◌, ◌≡◌, min, Bool, true, Option, none, some, List, [],
  ◌∷◌, ◌++◌, map, count_if, length, length-append, indicator, sum, refl, sym, ap, ◌∙◌, subst, arith,
}
use rag_eval.Metrics.Retrieval.{replicate}
use rag_eval.Execution.Selection.{Item}
use rag_eval.Execution.Pool.{
  WorkerState, idle, busy, returned, failures, has_returned, Pool, new_pool, Step, takes, stops,
  ends, Reachable, starts, goes_on, any_failed,
}

-- How many workers stand in a list at all, and how many of a kind.
pub count_if_between :
    (t : WorkerState → Bool) (before after : List WorkerState) (w : WorkerState)
    → count_if t (before ++ w ∷ after) ≡ count_if t before + indicator (t w) + count_if t after
count_if_between t [] after w = omega arith
count_if_between t (x ∷ before) after w = omega (arith, count_if_between t before after w)

pub length_between :
    (before after : List WorkerState) (w : WorkerState)
    → length (before ++ w ∷ after) ≡ length before + 1 + length after
length_between before after w = omega (arith, length-append before (w ∷ after))

sum_between :
    (before after : List WorkerState) (w : WorkerState)
    → sum (map failures (before ++ w ∷ after))
      ≡ sum (map failures before) + failures w + sum (map failures after)
sum_between [] after w = omega arith
sum_between (x ∷ before) after w = omega (arith, sum_between before after w)

-- The queue holds the cases that are left and then a sentinel for every worker that has not
-- returned, of which there is none while cases are left; the failures of the workers are the calls
-- that raised.
abbrev pub IsFed : ℕ → List Item → Pool → Type 0
IsFed workers selected p =
    (rest : List Item) × (sentinels : ℕ) × (p.queue
      ≡ map (λ (i : Item). some i) rest ++ replicate sentinels none)
    × (p.started ++ rest ≡ selected)
    × ((rest ≡ []) ⊎ (sentinels ≡ workers))
    × (sentinels + count_if has_returned p.workers ≡ length p.workers)
    × (length p.workers ≡ workers)
    × (sum (map failures p.workers) ≡ p.raised)

-- What the front of such a queue says about it.
queued : List Item → ℕ → List (Option Item)
queued rest sentinels = map (λ (i : Item). some i) rest ++ replicate sentinels none

case_in_front :
    (rest : List Item) (sentinels : ℕ) (item : Item) (q : List (Option Item))
    → queued rest sentinels ≡ some item ∷ q
    → (rest' : List Item) × (rest ≡ item ∷ rest') × (q ≡ queued rest' sentinels)
unfolding queued
case_in_front [] zero item q e = absurd (ground arith)
case_in_front [] (suc k) item q e = absurd (ground arith)
case_in_front (i ∷ rest) k item q e = (rest, cc, cc)

sentinel_in_front :
    (rest : List Item) (sentinels : ℕ) (q : List (Option Item))
    → queued rest sentinels ≡ none ∷ q
    → (k : ℕ) × (sentinels ≡ suc k) × (rest ≡ []) × (q ≡ queued rest k)
unfolding queued
sentinel_in_front [] zero q e = absurd (ground arith)
sentinel_in_front [] (suc k) q e = (k, refl, refl, cc)
sentinel_in_front (i ∷ rest) k q e = absurd (ground arith)

append-one : (xs ys : List Item) (x : Item) → (xs ++ (x ∷ [])) ++ ys ≡ xs ++ x ∷ ys
append-one [] ys x = refl
append-one (y ∷ xs) ys x = ap (λ l. y ∷ l) (append-one xs ys x)

-- What one worker's step does to the counts.
workers_move :
    (workers sentinels sentinels' raised more : ℕ) (before after ws : List WorkerState)
    (w w' : WorkerState)
    → ws ≡ before ++ w ∷ after
    → sentinels' + indicator (has_returned w') ≡ sentinels + indicator (has_returned w)
    → failures w' ≡ failures w + more
    → (sentinels + count_if has_returned ws ≡ length ws)
      × (length ws ≡ workers)
      × (sum (map failures ws) ≡ raised)
    → let ws' = before ++ w' ∷ after in
      (sentinels' + count_if has_returned ws' ≡ length ws')
      × (length ws' ≡ workers)
      × (sum (map failures ws') ≡ raised + more)
workers_move workers k k' raised more before after ws w w' e hk hf h =
    let counts : count_if has_returned ws ≡ count_if has_returned (before ++ w ∷ after) =
      ap (count_if has_returned) e in
    let lengths : length ws ≡ length (before ++ w ∷ after) = ap length e in
    let sums : sum (map failures ws) ≡ sum (map failures (before ++ w ∷ after)) =
      ap (λ (l : List WorkerState). sum (map failures l)) e in
    omega (
      arith,
      counts,
      lengths,
      sums,
      count_if_between has_returned before after w,
      count_if_between has_returned before after w',
      length_between before after w,
      length_between before after w',
      sum_between before after w,
      sum_between before after w',
    )

Step-IsFed :
    {p p' : Pool} (workers : ℕ) (selected : List Item)
    → Step p p'
    → IsFed workers selected p
    → IsFed workers selected p'
unfolding queued
Step-IsFed {p} {p'} workers selected (takes before after n item q w e d)
      (rest, k, hq, hs, hr, hc, hl, hf) =
    let (rest', er, eq) = case_in_front rest k item q (sym hq ∙ e) in
    let m =
      workers_move workers k k p.raised 0 before after p.workers (idle n) (busy item n) w refl
        (omega arith) (hc, hl, hf) in
    subst (IsFed workers selected) (sym d) (
      rest',
      k,
      eq,
      append-one p.started rest' item ∙ subst (λ (l : List Item). p.started ++ l ≡ selected) er hs,
      ground arith,
      m.0,
      m.1,
      omega (arith, m),
    )
Step-IsFed {p} {p'} workers selected (stops before after n q w e d)
      (rest, k, hq, hs, hr, hc, hl, hf) =
    let (k', ek, er, eq) = sentinel_in_front rest k q (sym hq ∙ e) in
    let m =
      workers_move workers k k' p.raised 0 before after p.workers (idle n) (returned n) w
        (omega arith) (omega arith) (hc, hl, hf) in
    subst (IsFed workers selected) (sym d) (rest, k', eq, hs, inl er, m.0, m.1, omega (arith, m))
Step-IsFed {p} {p'} workers selected (ends before after n item raises w d)
      (rest, k, hq, hs, hr, hc, hl, hf) =
    let m =
      workers_move workers k k p.raised (indicator raises) before after p.workers (busy item n)
        (idle (n + indicator raises)) w refl refl (hc, hl, hf) in
    subst (IsFed workers selected) (sym d) (rest, k, hq, hs, hr, m.0, m.1, m.2)

fresh :
    (n : ℕ)
    → let ws = replicate n (idle 0) in
      (count_if has_returned ws ≡ 0) × (length ws ≡ n) × (sum (map failures ws) ≡ 0)
fresh zero = (refl, refl, refl)
fresh (suc n) = ground (arith, fresh n)

new_pool-IsFed :
    (concurrency : ℕ) (selected : List Item)
    → IsFed (min concurrency (length selected)) selected (new_pool concurrency selected)
unfolding new_pool
new_pool-IsFed concurrency selected =
    let n : ℕ = min concurrency (length selected) in
    let (a, b, c) = fresh n in (selected, n, refl, refl, inr refl, omega arith, b, c)

pub Reachable-IsFed :
    {concurrency : ℕ} {selected : List Item} {p : Pool}
    → Reachable concurrency selected p
    → IsFed (min concurrency (length selected)) selected p
Reachable-IsFed {concurrency} {selected} starts = new_pool-IsFed concurrency selected
Reachable-IsFed {concurrency} {selected} (goes_on h st) =
    Step-IsFed (min concurrency (length selected)) selected st (Reachable-IsFed h)

nothing_left :
    (concurrency : ℕ) (started rest selected : List Item)
    → 0 < concurrency
    → started ++ rest ≡ selected
    → (rest ≡ []) ⊎ (min concurrency (length selected) ≡ 0)
    → rest ≡ []
nothing_left concurrency started [] selected pos e h = refl
nothing_left concurrency started (x ∷ rest) selected pos e h =
    let lengths : length (started ++ x ∷ rest) ≡ length selected = ap length e in
    absurd (ground (arith, lengths, length-append started (x ∷ rest)))

emptied :
    (rest : List Item) (sentinels : ℕ) (q : List (Option Item))
    → q ≡ map (λ (i : Item). some i) rest ++ replicate sentinels none
    → rest ≡ []
    → sentinels ≡ 0
    → q ≡ []
emptied [] zero q e h k = e
emptied [] (suc n) q e h k = absurd (ground arith)
emptied (i ∷ rest) n q e h k = absurd (ground arith)

all_started :
    (started rest selected : List Item)
    → started ++ rest ≡ selected
    → rest ≡ []
    → started ≡ selected
all_started [] rest selected e h = cc
all_started (x ∷ started) rest [] e h = absurd (ground arith)
all_started (x ∷ started) rest (y ∷ selected) e h =
    ground (arith, all_started started rest selected)

abbrev pub AllReturned : Pool → Type 0
AllReturned p = count_if has_returned p.workers ≡ length p.workers

-- When every worker of a pool with at least one worker allowed has returned, `_execute_case` has
-- been called for every selected case exactly once, in the order of the selection, nothing is left
-- in the queue, and the answer is that some case failed exactly if some call raised, however the
-- workers were interleaved.
pub pool_runs_each_case_once :
    (concurrency : ℕ) (selected : List Item) (p : Pool)
    → 0 < concurrency
    → Reachable concurrency selected p
    → AllReturned p
    → (p.started ≡ selected) × (p.queue ≡ []) × ((any_failed p ≡ true) ↔ (0 < p.raised))
unfolding any_failed
pool_runs_each_case_once concurrency selected p pos h done =
    let (rest, k, hq, hs, hr, hc, hl, hf) = Reachable-IsFed h in
    let none_waits : k ≡ 0 = omega arith in
    let over = nothing_left concurrency p.started rest selected pos hs (ground arith) in
    (
      all_started p.started rest selected hs over,
      emptied rest k p.queue hq over none_waits,
      ground arith,
    )
