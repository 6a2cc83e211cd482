-- ===== src/Execution/Pool/Progress.antt =====
-- The worker pool of src/rag_eval/execution/engine.py neither waits for ever nor runs for ever.
use rag_eval.Prelude.{
  ℕ, zero, suc, ◌+◌, ◌*◌, ◌<◌, ◌≡◌, ◌⊎◌, inl, inr, min, false, Option, none, some, List, [], ◌∷◌,
  ◌++◌, map, count_if, count_if-le, length, indicator, refl, ap, arith,
}
use rag_eval.Metrics.Retrieval.{replicate}
use rag_eval.Execution.Selection.{Item}
use rag_eval.Execution.Pool.{
  WorkerState, idle, busy, returned, is_busy, has_returned, Pool, Step, takes, stops, ends,
  Reachable,
}
use rag_eval.Execution.Pool.Laws.{
  count_if_between, length_between, IsFed, AllReturned, Reachable-IsFed,
}

-- What the pool has left to do.
abbrev pub work_left : Pool → ℕ
work_left p = 2 * length p.queue + count_if is_busy p.workers

-- The work left by a queue and by workers of which one stands between the others.
work_of :
    (p : Pool) (before after : List WorkerState) (w : WorkerState) (q : List (Option Item))
    → p.workers ≡ before ++ w ∷ after
    → p.queue ≡ q
    → work_left p
      ≡ 2 * length q + (count_if is_busy before + indicator (is_busy w) + count_if is_busy after)
work_of p before after w q hw hq =
    let busy_now : count_if is_busy p.workers ≡ count_if is_busy (before ++ w ∷ after) =
      ap (count_if is_busy) hw in
    let waiting : length p.queue ≡ length q = ap length hq in
    omega (arith, busy_now, waiting, count_if_between is_busy before after w)

Step-work_left : (p p' : Pool) → Step p p' → work_left p' < work_left p
Step-work_left p p' (takes before after n item q w e d) = omega (
  arith,
  work_of p before after (idle n) (some item ∷ q) w e,
  work_of p' before after (busy item n) q (ap (λ (x : Pool). x.workers) d)
      (ap (λ (x : Pool). x.queue) d),
)
Step-work_left p p' (stops before after n q w e d) = omega (
  arith,
  work_of p before after (idle n) (none ∷ q) w e,
  work_of p' before after (returned n) q (ap (λ (x : Pool). x.workers) d)
      (ap (λ (x : Pool). x.queue) d),
)
Step-work_left p p' (ends before after n item raises w d) = omega (
  arith,
  work_of p before after (busy item n) p.queue w refl,
  work_of p' before after (idle (n + indicator raises)) p.queue (ap (λ (x : Pool). x.workers) d)
      (ap (λ (x : Pool). x.queue) d),
)

-- A worker that has not returned, and where it stands.
Active : List WorkerState → Type 0
Active ws =
    (before : List WorkerState) × (after : List WorkerState) × (n : ℕ) × ((ws
        ≡ before ++ idle n ∷ after)
      ⊎ ((item : Item) × (ws ≡ before ++ busy item n ∷ after)))

find-Active : (ws : List WorkerState) → (count_if has_returned ws ≡ length ws) ⊎ Active ws
unfolding Active
find-Active [] = inl refl
find-Active (idle n ∷ ws) = inr ([], ws, n, inl refl)
find-Active (busy item n ∷ ws) = inr ([], ws, n, inr (item, refl))
find-Active (returned n ∷ ws) = elim (find-Active ws) [
  | inl e ↦ inl (omega (arith, e))
  | inr (before, after, m, inl e) ↦
      inr (returned n ∷ before, after, m, inl (ap (λ l. returned n ∷ l) e))
  | inr (before, after, m, inr (item, e)) ↦
      inr (returned n ∷ before, after, m, inr (item, ap (λ l. returned n ∷ l) e))
]

-- What stands in the queue while a worker has not returned.
waiting_for :
    (rest : List Item) (sentinels : ℕ) (p : Pool) (before after : List WorkerState) (n : ℕ)
    → p.queue ≡ map (λ (i : Item). some i) rest ++ replicate sentinels none
    → 0 < sentinels
    → p.workers ≡ before ++ idle n ∷ after
    → (p' : Pool) × Step p p'
waiting_for [] zero p before after n e k w = absurd (omega arith)
waiting_for [] (suc k) p before after n e pos w =
    (_, stops before after n (replicate k none) w e refl)
waiting_for (i ∷ rest) k p before after n e pos w =
    (_, takes before after n i (map (λ (i : Item). some i) rest ++ replicate k none) w e refl)

not_all_returned :
    (ws before after : List WorkerState) (n : ℕ)
    → ws ≡ before ++ idle n ∷ after
    → count_if has_returned ws < length ws
not_all_returned ws before after n e =
    let counts : count_if has_returned ws ≡ count_if has_returned (before ++ idle n ∷ after) =
      ap (count_if has_returned) e in
    let lengths : length ws ≡ length (before ++ idle n ∷ after) = ap length e in
    omega (
      arith,
      counts,
      lengths,
      count_if_between has_returned before after (idle n),
      length_between before after (idle n),
      count_if-le has_returned before,
      count_if-le has_returned after,
    )

moves :
    (workers : ℕ) (selected : List Item) (p : Pool)
    → IsFed workers selected p
    → AllReturned p ⊎ ((p' : Pool) × Step p p')
unfolding Active
moves workers selected p (rest, k, hq, hs, hr, hc, hl, hf) = elim (find-Active p.workers) [
  | inl e ↦ inl e
  | inr (before, after, n, inl w) ↦ inr (
      waiting_for rest k p before after n hq
        (omega (arith, not_all_returned p.workers before after n w)) w)
  | inr (before, after, n, inr (item, w)) ↦ inr (_, ends before after n item false w refl)
]

-- The worker pool always comes to its end: every step of a worker leaves strictly less work, so that
-- no run of the pool is infinite, and as long as some worker has not returned a step is possible, so
-- that it never waits for ever at the queue.
pub pool_finishes :
    (concurrency : ℕ) (selected : List Item) (p : Pool)
    → Reachable concurrency selected p
    → ((p' : Pool) → Step p p' → work_left p' < work_left p)
      × (AllReturned p ⊎ ((p' : Pool) × Step p p'))
pool_finishes concurrency selected p h = (
  λ p' st. Step-work_left p p' st,
  moves (min concurrency (length selected)) selected p (Reachable-IsFed h),
)
