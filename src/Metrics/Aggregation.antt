-- ===== src/Metrics/Aggregation.antt =====
-- The aggregates of a metric over a run: src/rag_eval/metrics/aggregation.py.
--
-- The values of a metric are integers in a common unit. An aggregate is an integer over a natural
-- number, which the source computes in floats; its rounding to six digits is a parameter of the
-- percentiles, where the source rounds some values and others not, and is left out elsewhere. A
-- percentage is whole and at most 100, and a standard deviation stands by its square. The metric's id
-- and version, the same in all entries, are left out.
pub mod Interpolation
pub mod Percentiles
use rag_eval.Prelude.{
  ℕ, zero, suc, ◌+◌, ◌-◌, ◌*◌, ◌/◌, ◌%◌, Bool, true, false, Option, none, some, String, List, [],
  ◌∷◌, ◌++◌, map, ◌==◌, count_if, length, sum, ltb, if◌then◌else◌,
}
use rag_eval.Prelude.Int.{ℤ, pos, ◌+ℤ◌, ◌-ℤ◌, ltb_ℤ, abs, scale}
use rag_eval.Prelude.Sorting.{value_at, sort}
use rag_eval.Metrics.Registry.{MetricStatus, computed, unavailable_missing_input, failed}
use rag_eval.Metrics.Engine.{is_unavailable, is_failed}

-- An integer over a natural number.
pub record Ratio : Type 0 where
  pub num : ℤ
  pub den : ℕ

abbrev pub whole : ℤ → Ratio
whole v = record { num = v; den = 1 }

-- `sum(values)`
unfoldable pub sum_of : List ℤ → ℤ
sum_of [] = pos 0
sum_of (v ∷ values) = v +ℤ sum_of values

-- The value at a position in hundredths of a step, times 100; only a value between two positions is
-- rounded.
unfoldable pub interpolated : (ℤ → ℤ) → List ℤ → ℕ → ℤ
interpolated round sorted k =
    if k % 100 == 0
    then scale 100 (value_at sorted (k / 100))
    else round (
        scale (100 - k % 100) (value_at sorted (k / 100))
        +ℤ scale (k % 100) (value_at sorted (k / 100 + 1)))

-- `_compute_percentile`, times 100.
unfoldable pub compute_percentile : (ℤ → ℤ) → List ℤ → ℕ → ℤ
compute_percentile round [] percentile = pos 0
compute_percentile round (v ∷ values) percentile =
    let sorted = sort (v ∷ values) in
    let n = length sorted in
    if n == 1
    then scale 100 (value_at sorted 0)
    else interpolated round sorted (percentile * (n - 1))

abbrev pub percentile_of : (ℤ → ℤ) → List ℤ → ℕ → Ratio
percentile_of round values percentile = record {
  num = compute_percentile round values percentile;
  den = 100;
}

-- `min(values)` and `max(values)`
unfoldable pub smallest : ℤ → List ℤ → ℤ
smallest m [] = m
smallest m (v ∷ values) = smallest (if ltb_ℤ v m then v else m) values

unfoldable pub largest : ℤ → List ℤ → ℤ
largest m [] = m
largest m (v ∷ values) = largest (if ltb_ℤ m v then v else m) values

-- `_compute_std`, squared.
unfoldable pub compute_variance : List ℤ → Ratio
compute_variance values =
    let n = length values in
    let deviation : ℤ → ℕ = λ x. abs (scale n x -ℤ sum_of values) in
    if ltb n 2 then whole (pos 0) else record {
      num = pos (sum (map (λ x. deviation x * deviation x) values));
      den = n * n * (n - 1);
    }

abbrev pub is_computed : MetricStatus → Bool
is_computed computed = true
is_computed _ = false

-- `class AggregationResult`
pub record AggregationResult : Type 0 where
  pub aggregation_name : String
  pub value : Ratio
  pub total_count : ℕ
  pub computed_count : ℕ
  pub unavailable_count : ℕ
  pub failed_count : ℕ

unfoldable pub aggregate : List MetricStatus → String → Ratio → AggregationResult
aggregate statuses name value = record {
  aggregation_name = name;
  value = value;
  total_count = length statuses;
  computed_count = count_if is_computed statuses;
  unavailable_count = count_if is_unavailable statuses;
  failed_count = count_if is_failed statuses;
}

-- `compute_aggregations`
unfoldable pub compute_aggregations : (ℤ → ℤ) → List ℤ → List MetricStatus → List AggregationResult
compute_aggregations round [] statuses = aggregate statuses "count" (whole (pos 0)) ∷ []
compute_aggregations round (v ∷ rest) statuses =
    let values = v ∷ rest in
    let entry = aggregate statuses in
    entry "count" (whole (pos (length values)))
    ∷ entry "mean" (record { num = sum_of values; den = length values })
    ∷ entry "median" (percentile_of round values 50)
    ∷ entry "min" (whole (smallest v rest))
    ∷ entry "max" (whole (largest v rest))
    ∷ entry "std" (compute_variance values)
    ∷ entry "p50" (percentile_of round values 50)
    ∷ entry "p75" (percentile_of round values 75)
    ∷ entry "p90" (percentile_of round values 90)
    ∷ entry "p95" (percentile_of round values 95)
    ∷ entry "p99" (percentile_of round values 99)
    ∷ []

-- `status` in `convert_to_canonical`.
unfoldable pub canonical_status : AggregationResult → MetricStatus
canonical_status a = if ltb 0 a.computed_count then computed else unavailable_missing_input
