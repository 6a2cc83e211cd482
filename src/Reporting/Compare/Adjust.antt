-- ===== src/Reporting/Compare/Adjust.antt =====
-- `_adjust_statistics` of src/rag_eval/reporting/compare.py.
--
-- A statistic is its p-value and its two corrections; the loop leaves its other entries alone.
use rag_eval.Prelude.{
  ℕ, suc, ◌+◌, ◌≤◌, ◌<◌, ◌≡◌, Option, none, some, List, [], ◌∷◌, get_elem?, refl, ap, subst, All,
  ◌∙◌, arith, ◌⊎◌, inl, inr, Option-cases,
}
use rag_eval.Prelude.Shares.{Share, AtMost}
use rag_eval.Reporting.Stats.{holm_bonferroni}
use rag_eval.Reporting.Stats.Hochberg.{benjamini_hochberg, benjamini_hochberg-le-holm_bonferroni}

pub record Statistic : Type 0 where
  pub p_value : Option ℕ
  pub holm_p_value : Option ℕ
  pub benjamini_hochberg_p_value : Option Share

-- `p_values`
unfoldable pub given_p_values : List Statistic → List ℕ
given_p_values [] = []
given_p_values (item ∷ items) =
    let rest = given_p_values items in elim item.p_value [ none ↦ rest | some p ↦ p ∷ rest ]

-- The loop of `_adjust_statistics`; `none` is its IndexError.
unfoldable pub adjust_from : List ℕ → List Share → ℕ → List Statistic → Option (List Statistic)
adjust_from holm bh index [] = some []
adjust_from holm bh index (item ∷ items) =
    let without = adjust_from holm bh index items in
    let later = adjust_from holm bh (suc index) items in
    elim item.p_value [
      | none ↦ elim without [
        | none ↦ none
        | some rest ↦
            some (record item { holm_p_value = none; benjamini_hochberg_p_value = none } ∷ rest)
      ]
      | some p ↦ elim (get_elem? holm index) [
        | none ↦ none
        | some h ↦ elim (get_elem? bh index) [
          | none ↦ none
          | some b ↦ elim later [
            | none ↦ none
            | some rest ↦
                some (
                  record item { holm_p_value = some h; benjamini_hochberg_p_value = some b } ∷ rest)
          ]
        ]
      ]
    ]

-- `_adjust_statistics`
unfoldable pub adjust_statistics : ℕ → List Statistic → Option (List Statistic)
adjust_statistics one items =
    let ps = given_p_values items in
    adjust_from (holm_bonferroni one ps) (benjamini_hochberg one ps) 0 items

-- A statistic without a p-value has no corrections, and one with a p-value has both.
abbrev pub Corrected : ℕ → Statistic → Statistic → Type 0
Corrected one item out =
    (out.p_value ≡ item.p_value)
    × (((item.p_value ≡ none) × (out.holm_p_value ≡ none) × (out.benjamini_hochberg_p_value ≡ none))
        ⊎ ((p : ℕ) × (b : Share) × (h : ℕ) × (item.p_value ≡ some p)
            × (out.benjamini_hochberg_p_value ≡ some b)
            × (out.holm_p_value ≡ some h)
            × (0 < b.1)
            × AtMost (p, 1) b
            × AtMost b (h, 1)
            × (h ≤ one)))

abbrev pub AllCorrected : ℕ → List Statistic → List Statistic → Type 0
AllCorrected one [] [] = Unit
AllCorrected one (item ∷ items) (out ∷ outs) = Corrected one item out × AllCorrected one items outs
AllCorrected one _ _ = ⊥

adjust_from-total :
    (one index : ℕ) (ps : List ℕ) (items : List Statistic)
    → ((k : ℕ) → get_elem? ps (index + k) ≡ get_elem? (given_p_values items) k)
    → All (λ p. p ≤ one) (given_p_values items)
    → (outs : List Statistic) × (adjust_from
          (holm_bonferroni one ps)
          (benjamini_hochberg one ps)
          index
          items
        ≡ some outs)
      × AllCorrected one items outs
unfolding adjust_from given_p_values
adjust_from-total one index ps [] same range = ([], refl, tt)
adjust_from-total one index ps (item ∷ items) same range = elim (Option-cases item.p_value) [
  | inl e ↦
      let given : given_p_values (item ∷ items) ≡ given_p_values items = rw e refl in
      let (outs, done, corrected) =
        adjust_from-total one index ps items (λ k. same k ∙ ap (λ qs. get_elem? qs k) given)
          (subst (All (λ q. q ≤ one)) given range) in
      (
        record item { holm_p_value = none; benjamini_hochberg_p_value = none } ∷ outs,
        ground (arith, e, done),
        ((refl, inl (e, refl, refl)), corrected),
      )
  | inr (p, e) ↦
      let given : given_p_values (item ∷ items) ≡ p ∷ given_p_values items = rw e refl in
      let small : All (λ q. q ≤ one) (p ∷ given_p_values items) =
        subst (All (λ q. q ≤ one)) given range in
      let here : get_elem? ps index ≡ some p =
        ap (get_elem? ps) (omega arith) ∙ same 0 ∙ ap (λ qs. get_elem? qs 0) given in
      let (b, h, at_b, at_h, positive, above, below, top) =
        benjamini_hochberg-le-holm_bonferroni one ps index p here small.0 in
      let (outs, done, corrected) =
        adjust_from-total one (suc index) ps items
          (λ k.
            ap (get_elem? ps) (omega arith) ∙ same (suc k) ∙ ap (λ qs. get_elem? qs (suc k)) given)
          small.1 in
      (
        record item { holm_p_value = some h; benjamini_hochberg_p_value = some b } ∷ outs,
        ground (arith, e, at_b, at_h, done),
        ((refl, inr (p, b, h, e, refl, refl, positive, above, below, top)), corrected),
      )
]

-- The corrections of the statistics of a comparison never fail on an index, where every p-value is at
-- most 1. A statistic without a p-value gets none; one with a p-value gets both, and they lie in this
-- order: the p-value, the correction of Benjamini and Hochberg, Holm's correction, 1.
pub adjust_statistics-AllCorrected :
    (one : ℕ) (items : List Statistic)
    → All (λ p. p ≤ one) (given_p_values items)
    → (outs : List Statistic) × (adjust_statistics one items ≡ some outs)
      × AllCorrected one items outs
unfolding adjust_statistics
adjust_statistics-AllCorrected one items range =
    adjust_from-total one 0 (given_p_values items) items
      (λ k. ap (get_elem? (given_p_values items)) (omega arith)) range
