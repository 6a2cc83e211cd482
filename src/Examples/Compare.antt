-- ===== src/Examples/Compare.antt =====
-- Comparisons of runs (src/rag_eval/reporting/compare.py).
use rag_eval.Prelude.{
  ℕ, ◌≡◌, ◌&&◌, ◌≤◌, refl, map, arith, All, Option, none, some, is_some, String, List, [], ◌∷◌,
  str_eq,
}
use rag_eval.Prelude.Int.{ℤ, pos, negsuc}
use rag_eval.Reporting.Compare.{numeric, Aggregates, CaseValue, paired_values}
use rag_eval.Reporting.Stats.{holm_bonferroni, holm_steps, sort_indexed, insert_indexed, written}
use rag_eval.Reporting.Stats.Hochberg.{benjamini_hochberg, hochberg_steps, share_at}
use rag_eval.Reporting.Compare.Adjust.{
  Statistic, given_p_values, adjust_from, adjust_statistics, AllCorrected,
  adjust_statistics-AllCorrected,
}
use rag_eval.Prelude.Occurrences.{one_if, count}
use rag_eval.Reporting.Compare.Pairs.{Aligned, case_value, paired_values-Aligned}

abbrev before : Aggregates
before =
    (("retrieval.mrr", "mean", "1"), numeric (pos 50))
    ∷ (("usage.llm_calls", "mean", "1"), numeric (pos 4))
    ∷ []

abbrev after : Aggregates
after =
    (("usage.llm_calls", "mean", "2"), numeric (pos 4))
    ∷ (("retrieval.mrr", "mean", "1"), numeric (pos 70))
    ∷ []

abbrev result : String → ℤ → CaseValue
result id v = record { case_id = some id; metric_id = "m"; metric_version = "1"; value = some v }

abbrev run_a : List CaseValue
run_a = result "c2" (pos 5) ∷ result "c1" (pos 3) ∷ []

abbrev run_b : List CaseValue
run_b = result "c1" (pos 4) ∷ result "c3" (pos 1) ∷ result "c2" (negsuc 0) ∷ []

paired_values-Aligned_example :
    (ids : List String) × (xs : List ℤ) × (ys : List ℤ) × (paired_values "m" "1" run_a run_b
      ≡ (some xs, some ys))
    × Aligned (case_value "m" "1" run_a) (case_value "m" "1" run_b) ids xs ys
    × ((k : String)
        → count (λ j. str_eq j k) ids
          ≡ one_if (is_some (case_value "m" "1" run_a k) && is_some (case_value "m" "1" run_b k)))
paired_values-Aligned_example = paired_values-Aligned "m" "1" run_a run_b

abbrev get_or_empty : Option (List Statistic) → List Statistic
get_or_empty none = []
get_or_empty (some xs) = xs

abbrev statistic : Option ℕ → Statistic
statistic p = record { p_value = p; holm_p_value = none; benjamini_hochberg_p_value = none }

-- p-values of 0.04 and 0.03 in hundredths of a percent, around a metric without one.
abbrev statistics : List Statistic
statistics = statistic (some 400) ∷ statistic none ∷ statistic (some 300) ∷ []

-- Holm gives 0.06 for both, Benjamini and Hochberg 0.04, as 800 / 2 and as 800 / 2 again.
adjusted_test :
    map (λ (s : Statistic). s.holm_p_value) (get_or_empty (adjust_statistics 10000 statistics))
    ≡ some 600 ∷ none ∷ some 600 ∷ []
unfolding adjust_statistics adjust_from given_p_values holm_bonferroni holm_steps sort_indexed
    insert_indexed written benjamini_hochberg hochberg_steps share_at
adjusted_test = refl

statistics_in_range : All (λ p. p ≤ 10000) (given_p_values statistics)
unfolding given_p_values
statistics_in_range = omega arith

adjust_statistics-AllCorrected_example :
    (outs : List Statistic) × (adjust_statistics 10000 statistics ≡ some outs)
    × AllCorrected 10000 statistics outs
adjust_statistics-AllCorrected_example =
    adjust_statistics-AllCorrected 10000 statistics statistics_in_range
