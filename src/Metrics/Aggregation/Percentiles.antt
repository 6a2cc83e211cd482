-- ===== src/Metrics/Aggregation/Percentiles.antt =====
-- The percentiles of src/rag_eval/metrics/aggregation.py.
use rag_eval.Prelude.{
  ℕ, ◌+◌, ◌-◌, ◌*◌, ◌≤◌, ◌<◌, ◌≡◌, List, [], ◌∷◌, ◌==◌, length, All, refl, ap, arith, inl, inr,
  Bool-cases,
}
use native.Mathlib.Nat.{mul-le-mul_right}
use rag_eval.Prelude.Int.{ℤ, pos, ◌+ℤ◌, ◌≤ℤ◌, +ℤ_parts, scale}
use rag_eval.Prelude.Sorting.{value_at, sort, length-sort, All-sort, All-value_at, sort-IsSorted}
use rag_eval.Metrics.Aggregation.Interpolation.{
  scale_le, le_cong, interpolated_le, interpolated_between, exact, interpolated-exact,
}
use rag_eval.Metrics.Aggregation.{compute_percentile}

-- Without rounding, the percentiles grow with the percentage.
exact_rise :
    (values : List ℤ) (p d : ℕ)
    → p + d ≤ 100
    → compute_percentile (λ x. x) values p ≤ℤ compute_percentile (λ x. x) values (p + d)
unfolding compute_percentile
exact_rise [] p d h = omega arith
exact_rise (v ∷ values) p d h =
    let sorted : List ℤ = sort (v ∷ values) in
    let n : ℕ = length sorted in
    elim (Bool-cases (n == 1)) [
      | inl one ↦ rw (one, compute_percentile) (omega arith)
      | inr more ↦
          let e : (p + d) * (n - 1) ≡ p * (n - 1) + d * (n - 1) = omega arith in
          let bound : (p + d) * (n - 1) ≤ 100 * (n - 1) = mul-le-mul_right (n - 1) h in
          rw (more, compute_percentile)
            (le_cong (exact sorted (p * (n - 1))) (exact sorted (p * (n - 1)))
              (exact sorted ((p + d) * (n - 1))) (exact sorted (p * (n - 1) + d * (n - 1))) refl
              (ap (exact sorted) e)
              (interpolated_le sorted (p * (n - 1)) (d * (n - 1)) (sort-IsSorted (v ∷ values))
                (omega (arith, e, bound))))
    ]

compute_percentile-exact :
    (round : ℤ → ℤ) (half : ℕ) (values : List ℤ) (p : ℕ)
    → ((x : ℤ) → (x ≤ℤ round x +ℤ pos half) × (round x ≤ℤ x +ℤ pos half))
    → (compute_percentile (λ x. x) values p ≤ℤ compute_percentile round values p +ℤ pos half)
      × (compute_percentile round values p ≤ℤ compute_percentile (λ x. x) values p +ℤ pos half)
unfolding compute_percentile
compute_percentile-exact round half [] p close =
    (omega (arith, +ℤ_parts (pos 0) (pos half)), omega (arith, +ℤ_parts (pos 0) (pos half)))
compute_percentile-exact round half (v ∷ values) p close =
    let sorted : List ℤ = sort (v ∷ values) in
    elim (Bool-cases (length sorted == 1)) [
      | inl one ↦
          let only : ℤ = scale 100 (value_at sorted 0) in
          let near : only ≤ℤ only +ℤ pos half = omega (arith, +ℤ_parts only (pos half)) in
          rw (one, compute_percentile) (near, near)
      | inr more ↦
          rw (more, compute_percentile)
            (interpolated-exact round half sorted (p * (length sorted - 1)) close)
    ]

-- The percentiles of a metric grow with the percentage up to the rounding: for a rounding that moves
-- no number by more than `half`, the p-th percentile is above the q-th by at most twice that, for p at
-- most q at most 100, in whatever order the values come.
pub percentiles_rise :
    (round : ℤ → ℤ) (half : ℕ) (values : List ℤ) (p d : ℕ)
    → ((x : ℤ) → (x ≤ℤ round x +ℤ pos half) × (round x ≤ℤ x +ℤ pos half))
    → p + d ≤ 100
    → compute_percentile round values p
      ≤ℤ (compute_percentile round values (p + d) +ℤ pos half) +ℤ pos half
percentiles_rise round half values p d close h =
    let low : ℤ = compute_percentile round values p in
    let low' : ℤ = compute_percentile (λ x. x) values p in
    let high : ℤ = compute_percentile round values (p + d) in
    let high' : ℤ = compute_percentile (λ x. x) values (p + d) in
    omega (
      arith,
      (compute_percentile-exact round half values p close).1,
      (compute_percentile-exact round half values (p + d) close).0,
      exact_rise values p d h,
      +ℤ_parts low' (pos half),
      +ℤ_parts high (pos half),
      +ℤ_parts (high +ℤ pos half) (pos half),
    )

-- Without rounding, a percentile lies between any bounds of the values, and so between the smallest and the largest of
-- them, for every percentage up to 100.
pub percentile_between :
    (v : ℤ) (values : List ℤ) (p : ℕ) (lo hi : ℤ)
    → All (λ (x : ℤ). (lo ≤ℤ x) × (x ≤ℤ hi)) (v ∷ values)
    → p ≤ 100
    → (scale 100 lo ≤ℤ compute_percentile (λ x. x) (v ∷ values) p)
      × (compute_percentile (λ x. x) (v ∷ values) p ≤ℤ scale 100 hi)
unfolding compute_percentile
percentile_between v values p lo hi all h =
    let within : ℤ → Type 0 = λ x. (lo ≤ℤ x) × (x ≤ℤ hi) in
    let sorted : List ℤ = sort (v ∷ values) in
    let n : ℕ = length sorted in
    let some_value : 0 < n = omega (arith, length-sort (v ∷ values)) in
    let inside : All within sorted = All-sort within (v ∷ values) all in
    elim (Bool-cases (n == 1)) [
      | inl one ↦
          let only = All-value_at within sorted 0 inside some_value in
          rw (one, compute_percentile)
            (scale_le 100 lo (value_at sorted 0) only.0, scale_le 100 (value_at sorted 0) hi only.1)
      | inr more ↦
          rw (more, compute_percentile)
            (interpolated_between sorted (p * (n - 1)) lo hi inside some_value
              (mul-le-mul_right (n - 1) h))
    ]
