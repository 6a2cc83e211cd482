-- ===== src/Examples/Stats.antt =====
-- Statistics of small samples (src/rag_eval/reporting/stats.py).
use rag_eval.Prelude.{◌<◌, ◌≡◌, some, List, [], ◌∷◌, ◌++◌, refl, arith}
use rag_eval.Prelude.Int.{ℤ, pos, negsuc, scale}
use rag_eval.Reporting.Stats.{total, bootstrap_ci, mask_total}
use rag_eval.Reporting.Stats.Bootstrap.{bootstrap_ci_degenerate}

-- The 95 percent interval of three values.
bootstrap_ci_degenerate_example :
    bootstrap_ci (pos 4 ∷ pos 10 ∷ negsuc 2 ∷ []) 25 1000 2000
    ≡ some (
      scale 1000 (total (pos 4 ∷ pos 10 ∷ negsuc 2 ∷ [])),
      scale 1000 (total (pos 4 ∷ pos 10 ∷ negsuc 2 ∷ [])),
    )
bootstrap_ci_degenerate_example =
    bootstrap_ci_degenerate (pos 4) (pos 10 ∷ negsuc 2 ∷ []) 25 1000 2000 (omega arith)
      (omega arith)

abbrev early : List ℤ
early =
    pos 1
    ∷ pos 2
    ∷ pos 1
    ∷ pos 2
    ∷ pos 1
    ∷ pos 2
    ∷ pos 1
    ∷ pos 2
    ∷ pos 1
    ∷ pos 2
    ∷ pos 1
    ∷ negsuc 3
    ∷ []

abbrev late : List ℤ
late = pos 7 ∷ negsuc 0 ∷ []

mask_total_test : mask_total (early ++ late) ≡ 4096
unfolding mask_total
mask_total_test = refl

below_total : 2049 < mask_total (early ++ late)
below_total = omega (arith, mask_total_test)
