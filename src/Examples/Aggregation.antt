-- ===== src/Examples/Aggregation.antt =====
-- Aggregates of metric values (src/rag_eval/metrics/aggregation.py).
use rag_eval.Prelude.{◌+◌, ◌-◌, ◌%◌, ◌≡◌, List, [], ◌∷◌, refl, arith}
use rag_eval.Prelude.Int.{ℤ, pos, negsuc, ◌+ℤ◌, ◌≤ℤ◌, +ℤ_parts, scale}
use rag_eval.Prelude.Sorting.{value_at, insert, sort}
use rag_eval.Metrics.Aggregation.{interpolated, compute_percentile}
use rag_eval.Metrics.Aggregation.Percentiles.{percentiles_rise}

abbrev latencies : List ℤ
latencies = pos 9 ∷ pos 1 ∷ pos 4 ∷ pos 2 ∷ []

p50_test : compute_percentile (λ x. x) latencies 50 ≡ pos 300
unfolding compute_percentile interpolated sort insert value_at ◌+ℤ◌ scale
p50_test = refl

p95_test : compute_percentile (λ x. x) latencies 95 ≡ pos 825
unfolding compute_percentile interpolated sort insert value_at ◌+ℤ◌ scale
p95_test = refl

abbrev equal_values : List ℤ
equal_values = pos 333 ∷ pos 333 ∷ pos 333 ∷ []

-- Down to multiples of 1000.
abbrev round_down : ℤ → ℤ
round_down (pos n) = pos (n - n % 1000)
round_down (negsuc n) = negsuc (n + (999 - n % 1000))

round_down-close : (x : ℤ) → (x ≤ℤ round_down x +ℤ pos 999) × (round_down x ≤ℤ x +ℤ pos 999)
round_down-close (pos n) = (
  omega (arith, +ℤ_parts (pos (n - n % 1000)) (pos 999)),
  omega (arith, +ℤ_parts (pos n) (pos 999)),
)
round_down-close (negsuc n) = (
  omega (arith, +ℤ_parts (negsuc (n + (999 - n % 1000))) (pos 999)),
  omega (arith, +ℤ_parts (negsuc n) (pos 999)),
)

-- Of three equal values the median is exact and the 75th percentile is rounded, to less.
equal_values_fall :
    (compute_percentile round_down equal_values 50 ≡ pos 33300)
    × (compute_percentile round_down equal_values 75 ≡ pos 33000)
unfolding compute_percentile interpolated sort insert value_at ◌+ℤ◌ scale
equal_values_fall = (refl, refl)

-- The median and the 95th percentile of four values.
percentiles_rise_example :
    compute_percentile round_down latencies 50
    ≤ℤ (compute_percentile round_down latencies 95 +ℤ pos 999) +ℤ pos 999
percentiles_rise_example =
    percentiles_rise round_down 999 latencies 50 45 round_down-close (omega arith)
