-- ===== src/Reporting/Stats/Bootstrap.antt =====
-- `bootstrap_ci` of src/rag_eval/reporting/stats.py: what its samples are.
use rag_eval.Prelude.{
  ℕ, zero, suc, ◌+◌, ◌-◌, ◌*◌, ◌/◌, ◌%◌, ◌≤◌, ◌<◌, ◌≡◌, min, some, List, [], ◌∷◌, ◌++◌, length,
  length-append, inl, inr, ◌==◌, refl, sym, ap, ◌∙◌, arith, All, Bool-cases,
}
use native.Mathlib.Nat.{
  mod-eq_of_lt, add-mul-mod_self_right, mul-le-mul_right, div-le_of_le-mul, lt_of_mul-lt-mul_left,
  div-add-mod,
}
use rag_eval.Prelude.Int.{
  +ℤ_comm, +ℤ_assoc, +ℤ_cancel, +ℤ_zero, -ℤ_self, scale_zero, ℤ, pos, ◌+ℤ◌, ◌-ℤ◌, scale,
}
use rag_eval.Prelude.Sorting.{value_at, sort, length-sort, All-sort, All-value_at}
use rag_eval.Reporting.Stats.{sum_over, total, sample, samples, quantile, bootstrap_ci}

sum_over_congr : (n : ℕ) (f g : ℕ → ℤ) → ((i : ℕ) → i < n → f i ≡ g i) → sum_over n f ≡ sum_over n g
unfolding sum_over
sum_over_congr zero f g h = refl
sum_over_congr (suc n) f g h =
    let below = sum_over_congr n f g (λ i l. h i (omega (arith, l))) in
    let last = h n (omega arith) in cc

-- A sum from the other end.
sum_over_shift : (n : ℕ) (f : ℕ → ℤ) → sum_over (suc n) f ≡ f 0 +ℤ sum_over n (λ i. f (suc i))
unfolding sum_over
sum_over_shift zero f = +ℤ_comm (pos 0) (f 0)
sum_over_shift (suc n) f =
    ap (λ a. a +ℤ f (suc n)) (sum_over_shift n f)
    ∙ +ℤ_assoc (f 0) (sum_over n (λ i. f (suc i))) (f (suc n))

sum_over_values : (xs : List ℤ) → sum_over (length xs) (value_at xs) ≡ total xs
unfolding sum_over total value_at
sum_over_values [] = refl
sum_over_values (x ∷ xs) =
    sum_over_shift (length xs) (value_at (x ∷ xs)) ∙ ap (λ a. x +ℤ a) (sum_over_values xs)

-- Turning a period round by one leaves its sum.
sum_over_rotate : (n : ℕ) (f : ℕ → ℤ) → f n ≡ f 0 → sum_over n (λ i. f (suc i)) ≡ sum_over n f
unfolding sum_over
sum_over_rotate n f e =
    let turned = sum_over_shift n f in
    +ℤ_cancel (sum_over n (λ i. f (suc i))) (sum_over n f) (f 0)
      (+ℤ_comm (sum_over n (λ i. f (suc i))) (f 0) ∙ sym turned ∙ ap (λ a. sum_over n f +ℤ a) e)

rotated : (n offset : ℕ) → (n + offset) % n ≡ (0 + offset) % n
rotated n offset =
    let start : n + offset ≡ offset + 1 * n = omega arith in
    let same : 0 + offset ≡ offset = omega arith in
    ap (λ k. k % n) start ∙ add-mul-mod_self_right offset 1 n ∙ sym (ap (λ k. k % n) same)

sample-total : (xs : List ℤ) (offset : ℕ) → 0 < length xs → sample xs offset ≡ total xs
unfolding sample
sample-total xs zero h =
    sum_over_congr (length xs) (λ i. value_at xs ((i + 0) % length xs)) (value_at xs)
      (λ i l. ap (value_at xs) (ap (λ k. k % length xs) (omega arith) ∙ mod-eq_of_lt l))
    ∙ sum_over_values xs
sample-total xs (suc offset) h =
    let n : ℕ = length xs in
    let f : ℕ → ℤ = λ i. value_at xs ((i + offset) % n) in
    sum_over_congr n (λ i. value_at xs ((i + suc offset) % n)) (λ i. f (suc i))
      (λ i l. ap (λ k. value_at xs (k % n)) (omega arith))
    ∙ sum_over_rotate n f (ap (value_at xs) (rotated n offset))
    ∙ sample-total xs offset h

-- Lists of one value.
abbrev pub IsConstant : ℤ → List ℤ → Type 0
IsConstant c = All (λ s. s ≡ c)

IsConstant-append :
    (c : ℤ) (xs ys : List ℤ) → IsConstant c xs → IsConstant c ys → IsConstant c (xs ++ ys)
IsConstant-append c [] ys h k = k
IsConstant-append c (x ∷ xs) ys h k = (h.0, IsConstant-append c xs ys h.1 k)

samples-IsConstant : (xs : List ℤ) (n : ℕ) → 0 < length xs → IsConstant (total xs) (samples xs n)
unfolding samples
samples-IsConstant xs zero h = tt
samples-IsConstant xs (suc n) h =
    IsConstant-append (total xs) (samples xs n) (sample xs n ∷ []) (samples-IsConstant xs n h)
      (sample-total xs n h, tt)

length-samples : (xs : List ℤ) (n : ℕ) → length (samples xs n) ≡ n
unfolding samples
length-samples xs zero = refl
length-samples xs (suc n) =
    omega (arith, length-append (samples xs n) (sample xs n ∷ []), length-samples xs n)

-- The indices that a quantile reads are in range.
position_in_range :
    (den num size : ℕ)
    → 0 < den
    → 0 < size
    → let position = min num den * (size - 1) in
      (position / den < size) × (0 < position % den → position / den + 1 < size)
position_in_range den num size pos_den some_value =
    let position : ℕ = min num den * (size - 1) in
    let bound : position ≤ den * (size - 1) = mul-le-mul_right (size - 1) (omega arith) in
    let below : position / den ≤ size - 1 = div-le_of_le-mul den bound in
    (
      omega (arith, below),
      λ rest.
          let strict : position / den < size - 1 =
            lt_of_mul-lt-mul_left den (omega (arith, bound, div-add-mod position den, rest)) in
          omega (arith, strict),
    )

flat :
    (den rest : ℕ) (c low high : ℤ)
    → low ≡ c
    → high ≡ c
    → scale den low +ℤ scale rest (high -ℤ low) ≡ scale den c
flat den rest c low high el eh =
    let level : high -ℤ low ≡ pos 0 = ap (λ a. a -ℤ low) (eh ∙ sym el) ∙ -ℤ_self low in
    ap (λ a. scale den low +ℤ scale rest a) level
    ∙ ap (λ a. scale den low +ℤ a) (scale_zero rest)
    ∙ +ℤ_zero (scale den low)
    ∙ ap (scale den) el

quantile-IsConstant :
    (c : ℤ) (xs : List ℤ) (num den : ℕ)
    → 0 < den
    → 0 < length xs
    → IsConstant c xs
    → quantile xs num den ≡ scale den c
unfolding quantile
quantile-IsConstant c xs num den pos_den some_value h =
    let range = position_in_range den num (length xs) pos_den some_value in
    let position : ℕ = min num den * (length xs - 1) in
    elim (Bool-cases (length xs == 1)) [
      | inl e ↦
          rw (e, quantile) (ap (scale den) (All-value_at (λ (s : ℤ). s ≡ c) xs 0 h some_value))
      | inr e ↦ elim (Bool-cases (position % den == 0)) [
        | inl f ↦
            let low = All-value_at (λ (s : ℤ). s ≡ c) xs (position / den) h range.0 in
            rw (e, quantile) (rw (f, quantile) (flat den (position % den) c _ _ low low))
        | inr f ↦
            let low = All-value_at (λ (s : ℤ). s ≡ c) xs (position / den) h range.0 in
            let high =
              All-value_at (λ (s : ℤ). s ≡ c) xs (position / den + 1) h (range.1 (ground arith)) in
            rw (e, quantile) (rw (f, quantile) (flat den (position % den) c _ _ low high))
      ]
    ]

-- The bootstrap interval is always degenerate: whatever the values, the confidence and the number of
-- resamples, at least one, both ends of the interval are the mean itself, because every sample is a
-- rotation of the values and has their sum.
pub bootstrap_ci_degenerate :
    (v : ℤ) (values : List ℤ) (num den resamples : ℕ)
    → 0 < den
    → 0 < resamples
    → let m = scale den (total (v ∷ values)) in
      bootstrap_ci (v ∷ values) num den resamples ≡ some (m, m)
unfolding bootstrap_ci
bootstrap_ci_degenerate v values num den resamples pos_den pos_resamples =
    let n : ℕ = min resamples 2000 in
    let sorted : List ℤ = sort (samples (v ∷ values) n) in
    let size : 0 < length sorted =
      omega (arith, length-sort (samples (v ∷ values) n), length-samples (v ∷ values) n) in
    let same : IsConstant (total (v ∷ values)) sorted =
      All-sort (λ (s : ℤ). s ≡ total (v ∷ values)) (samples (v ∷ values) n)
        (samples-IsConstant (v ∷ values) n (omega arith)) in
    let low = quantile-IsConstant (total (v ∷ values)) sorted num den pos_den size same in
    let high = quantile-IsConstant (total (v ∷ values)) sorted (den - num) den pos_den size same in
    cc
