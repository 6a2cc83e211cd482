-- ===== src/Reporting/Stats/Permutation.antt =====
-- `paired_permutation_pvalue` of src/rag_eval/reporting/stats.py.
use rag_eval.Prelude.{
  ℕ, zero, suc, ◌+◌, ◌/◌, ◌^◌, ◌≤◌, ◌<◌, ◌≡◌, ◌↔◌, true, false, none, some, List, [], ◌∷◌, ◌++◌,
  leb, length, refl, sym, ap, ◌∙◌, arith, if◌then◌else◌,
}
use native.Mathlib.Nat.{div-eq_of_lt, one-le-pow, pow-le-pow_right}
use rag_eval.Prelude.Int.{
  ℤ, pos, ◌+ℤ◌, +ℤ_comm, +ℤ_assoc, +ℤ_zero, +ℤ_parts, neg, neg_parts, eq_of_parts, abs,
}
use rag_eval.Reporting.Stats.{
  total, bit, signed_sum, count_masks, mask_total, paired_permutation_pvalue,
}

bit_of_low : (mask index : ℕ) → mask < 2 ^ index → bit mask index ≡ false
bit_of_low mask index h =
    let none_left : mask / 2 ^ index ≡ 0 = div-eq_of_lt h in rw (none_left) refl

neg-total : (d : ℤ) (ds : List ℤ) → neg d +ℤ neg (total ds) ≡ neg (total (d ∷ ds))
unfolding total
neg-total d ds = eq_of_parts (neg d +ℤ neg (total ds)) (neg (d +ℤ total ds)) (
    omega (
      arith,
      neg_parts d,
      neg_parts (total ds),
      neg_parts (d +ℤ total ds),
      +ℤ_parts d (total ds),
      +ℤ_parts (neg d) (neg (total ds)),
    ))

-- Where a mask has no bit from an index on, all that follows is negated.
signed_sum_low :
    (mask index : ℕ) (ds : List ℤ)
    → ((i : ℕ) → index ≤ i → mask < 2 ^ i)
    → signed_sum mask index ds ≡ neg (total ds)
unfolding signed_sum total neg
signed_sum_low mask index [] h = refl
signed_sum_low mask index (d ∷ ds) h =
    let off = bit_of_low mask index (h index (omega arith)) in
    let rest = signed_sum_low mask (suc index) ds (λ i l. h i (omega (arith, l))) in
    rw (off, signed_sum) (ap (λ a. neg d +ℤ a) rest ∙ neg-total d ds)

mask_zero_counts : (ds : List ℤ) → leb (abs (total ds)) (abs (signed_sum 0 0 ds)) ≡ true
mask_zero_counts ds =
    let all_off : signed_sum 0 0 ds ≡ neg (total ds) =
      signed_sum_low 0 0 ds (λ i l. one-le-pow i 2 (omega arith)) in
    rw all_off (ground (arith, neg_parts (total ds)))

count_masks_bounds : (n : ℕ) (ds : List ℤ) → (count_masks n ds ≤ n) × (0 < n → 0 < count_masks n ds)
unfolding count_masks
count_masks_bounds zero ds = ground arith
count_masks_bounds (suc zero) ds = ground (arith, mask_zero_counts ds)
count_masks_bounds (suc (suc n)) ds = ground (arith, count_masks_bounds (suc n) ds)

-- The p-value of a list of differences is positive and at most 1, since the mask 0, which negates all
-- differences, always counts; it is absent exactly when there are no differences.
pub paired_permutation_pvalue_bounds :
    (ds : List ℤ)
    → ((paired_permutation_pvalue ds ≡ none) ↔ (ds ≡ []))
      × ((at_least of : ℕ)
          → paired_permutation_pvalue ds ≡ some (at_least, of)
          → (0 < at_least) × (at_least ≤ of))
unfolding paired_permutation_pvalue mask_total
paired_permutation_pvalue_bounds [] = (((λ h. refl), (λ h. refl)), λ a t e. absurd (ground arith))
paired_permutation_pvalue_bounds (d ∷ ds) =
    let bounds = count_masks_bounds (mask_total (d ∷ ds)) (d ∷ ds) in
    (
      ((λ h. absurd (ground arith)), (λ h. absurd (ground arith))),
      λ a t e. ground (arith, bounds, one-le-pow (length (d ∷ ds)) 2 (omega arith)),
    )

signed_sum-append :
    (mask index : ℕ) (early late : List ℤ)
    → signed_sum mask index (early ++ late)
      ≡ signed_sum mask index early +ℤ signed_sum mask (index + length early) late
unfolding signed_sum
signed_sum-append mask index [] late =
    let here : index ≡ index + 0 = omega arith in
    ap (λ i. signed_sum mask i late) here
    ∙ sym (
        +ℤ_comm (pos 0) (signed_sum mask (index + 0) late)
        ∙ +ℤ_zero (signed_sum mask (index + 0) late))
signed_sum-append mask index (d ∷ early) late =
    let signed : ℤ = if bit mask index then d else neg d in
    let next : suc index + length early ≡ index + suc (length early) = omega arith in
    ap (λ a. signed +ℤ a) (signed_sum-append mask (suc index) early late)
    ∙ sym (
        +ℤ_assoc signed (signed_sum mask (suc index) early)
          (signed_sum mask (suc index + length early) late))
    ∙ ap (λ i. (signed +ℤ signed_sum mask (suc index) early) +ℤ signed_sum mask i late) next

-- Every mask that is tried negates all differences after the first twelve, so that of their signs
-- only one choice is ever looked at: the p-value of longer lists is not that of all sign changes.
pub late_differences_negated :
    (mask : ℕ) (early late : List ℤ)
    → 12 ≤ length early
    → mask < mask_total (early ++ late)
    → signed_sum mask 0 (early ++ late) ≡ signed_sum mask 0 early +ℤ neg (total late)
unfolding mask_total
late_differences_negated mask early late h l =
    let low : mask < 2 ^ 12 = ground arith in
    signed_sum-append mask 0 early late
    ∙ ap (λ a. signed_sum mask 0 early +ℤ a)
        (signed_sum_low mask (0 + length early) late (λ i le. omega (
          arith,
          low,
          pow-le-pow_right {n = 2} (omega arith) {i = 12} {j = i} (omega (arith, le)),
        )))
