-- ===== src/Reporting/Compare/Verdicts.antt =====
-- How the assessments of src/rag_eval/reporting/compare.py behave.
use rag_eval.Prelude.{ℕ, ◌+◌, ◌≡◌, refl, some, String, List, [], ◌∷◌, arith}
use rag_eval.Prelude.Int.{ℤ, pos, ◌-ℤ◌, neg, neg_parts, -ℤ_parts, eq_of_parts}
use rag_eval.Prelude.Dict.{lookup}
use rag_eval.Reporting.Compare.Directions.{
  Direction, higher_is_better, lower_is_better, unknown, direction_of,
}
use rag_eval.Reporting.Compare.{
  AggregateValue, no_value, opaque, numeric, Assessment, improved, regressed, unchanged,
  inconclusive, MetricComparison, absolute_change, assess, compare_metric, AggregateKey, same_key,
  Aggregates, Tally,
}

-- The assessment of the opposite comparison.
abbrev pub mirrored : Assessment → Assessment
mirrored improved = regressed
mirrored regressed = improved
mirrored unchanged = unchanged
mirrored inconclusive = inconclusive

assess-neg :
    (epsilon : ℕ) (d : Direction) (delta delta' : ℤ)
    → delta' ≡ neg delta
    → assess epsilon d delta' ≡ mirrored (assess epsilon d delta)
unfolding assess
assess-neg epsilon higher_is_better delta delta' e =
    ground (arith, neg_parts delta, neg_parts (pos epsilon))
assess-neg epsilon lower_is_better delta delta' e =
    ground (arith, neg_parts delta, neg_parts (pos epsilon))
assess-neg epsilon unknown delta delta' e = refl

swapped_delta : (a b : ℤ) → a -ℤ b ≡ neg (b -ℤ a)
swapped_delta a b =
    eq_of_parts (a -ℤ b) (neg (b -ℤ a))
      (omega (arith, -ℤ_parts a b, -ℤ_parts b a, neg_parts (b -ℤ a)))

-- Comparing the runs the other way round turns every improvement into a regression and every
-- regression into an improvement, and leaves the other assessments, whatever the metric.
pub compare_metric_swapped :
    (epsilon : ℕ) (metric_id : String) (a b : AggregateValue)
    → (compare_metric epsilon metric_id b a).assessment
      ≡ mirrored (compare_metric epsilon metric_id a b).assessment
unfolding compare_metric absolute_change
compare_metric_swapped epsilon metric_id no_value no_value = refl
compare_metric_swapped epsilon metric_id no_value opaque = refl
compare_metric_swapped epsilon metric_id no_value (numeric b) = refl
compare_metric_swapped epsilon metric_id opaque no_value = refl
compare_metric_swapped epsilon metric_id opaque opaque = refl
compare_metric_swapped epsilon metric_id opaque (numeric b) = refl
compare_metric_swapped epsilon metric_id (numeric a) no_value = refl
compare_metric_swapped epsilon metric_id (numeric a) opaque = refl
compare_metric_swapped epsilon metric_id (numeric a) (numeric b) =
    assess-neg epsilon (direction_of metric_id) (b -ℤ a) (a -ℤ b) (swapped_delta a b)

abbrev total_count : Tally → ℕ
total_count t = t.improved_count + t.regressed_count + t.unchanged_count + t.inconclusive_count

-- The comparisons are those of the two runs' values under the keys, in their order.
abbrev pub Compared :
    ℕ → Aggregates → Aggregates → List AggregateKey → List MetricComparison → Type 0
Compared epsilon a b [] [] = Unit
Compared epsilon a b (k ∷ ks) (c ∷ cs) =
    ((x : AggregateValue) × (y : AggregateValue) × (lookup same_key k a ≡ some x)
      × (lookup same_key k b ≡ some y)
      × (c ≡ compare_metric epsilon k.0 x y))
    × Compared epsilon a b ks cs
Compared epsilon a b _ _ = ⊥
