-- ===== src/Reporting/Stats.antt =====
-- The statistical helpers of run comparisons: src/rag_eval/reporting/stats.py.
--
-- The values that are compared are integers in some common unit, which the floats of the source stand
-- for, and a mean is the pair of a sum and a size. p-values are natural numbers over a common
-- denominator `one`. A result that the source divides is left as its two terms.
pub mod Bootstrap
pub mod Permutation
pub mod Effects
pub mod Holm
pub mod Hochberg
use rag_eval.Prelude.{
  ℕ, zero, suc, ◌+◌, ◌-◌, ◌*◌, ◌/◌, ◌%◌, ◌^◌, min, max, Bool, true, false, not, Option, none, some,
  List, [], ◌∷◌, ◌++◌, map, ◌==◌, ltb, leb, count_if, keep, length, get_elem?, if◌then◌else◌,
}
use rag_eval.Prelude.Int.{ℤ, pos, ◌+ℤ◌, ◌-ℤ◌, ltb_ℤ, neg, abs, scale}
use rag_eval.Prelude.Sorting.{value_at, sort}

-- `sum(f(index) for index in range(size))`
unfoldable pub sum_over : ℕ → (ℕ → ℤ) → ℤ
sum_over zero f = pos 0
sum_over (suc n) f = sum_over n f +ℤ f n

-- `sum(values)`
unfoldable pub total : List ℤ → ℤ
total [] = pos 0
total (x ∷ xs) = x +ℤ total xs

-- The sum of the sample of one offset; the size divides it.
unfoldable pub sample : List ℤ → ℕ → ℤ
sample values offset =
    sum_over (length values) (λ index. value_at values ((index + offset) % length values))

unfoldable pub samples : List ℤ → ℕ → List ℤ
samples values zero = []
samples values (suc n) = samples values n ++ (sample values n ∷ [])

-- `_quantile` at the fraction num / den: its value times den.
unfoldable pub quantile : List ℤ → ℕ → ℕ → ℤ
quantile values num den =
    let position = min num den * (length values - 1) in
    let lower = position / den in
    let low = value_at values lower in
    let high = value_at values (if position % den == 0 then lower else lower + 1) in
    if length values == 1
    then scale den (value_at values 0)
    else scale den low +ℤ scale (position % den) (high -ℤ low)

-- `bootstrap_ci` for the confidence 1 - 2 num / den: both ends, times the size and den.
unfoldable pub bootstrap_ci : List ℤ → ℕ → ℕ → ℕ → Option (ℤ × ℤ)
bootstrap_ci [] num den resamples = none
bootstrap_ci (v ∷ values) num den resamples =
    let sorted = sort (samples (v ∷ values) (min resamples 2000)) in
    some (quantile sorted num den, quantile sorted (den - num) den)

-- Whether the bit of an index is set in a mask.
abbrev pub bit : ℕ → ℕ → Bool
bit mask index = (mask / 2 ^ index) % 2 == 1

-- The sum of the signed differences of a mask, from an index on.
unfoldable pub signed_sum : ℕ → ℕ → List ℤ → ℤ
signed_sum mask index [] = pos 0
signed_sum mask index (d ∷ ds) =
    (if bit mask index then d else neg d) +ℤ signed_sum mask (suc index) ds

-- `at_least`, over the masks below a bound.
unfoldable pub count_masks : ℕ → List ℤ → ℕ
count_masks zero ds = 0
count_masks (suc mask) ds =
    count_masks mask ds + (if leb (abs (total ds)) (abs (signed_sum mask 0 ds)) then 1 else 0)

-- `total` of `paired_permutation_pvalue`
unfoldable pub mask_total : List ℤ → ℕ
mask_total ds = if ltb 4096 (2 ^ length ds) then 4096 else 2 ^ length ds

-- `paired_permutation_pvalue`: the count and what it is divided by.
unfoldable pub paired_permutation_pvalue : List ℤ → Option (ℕ × ℕ)
paired_permutation_pvalue [] = none
paired_permutation_pvalue (d ∷ ds) =
    some (count_masks (mask_total (d ∷ ds)) (d ∷ ds), mask_total (d ∷ ds))

abbrev pub is_positive : ℤ → Bool
is_positive v = ltb_ℤ (pos 0) v

abbrev pub is_negative : ℤ → Bool
is_negative v = ltb_ℤ v (pos 0)

abbrev pub is_nonzero : ℤ → Bool
is_nonzero v = not (abs v == 0)

-- What `rank_biserial` returns, for the number of wins, of losses and of all non-zero differences.
unfoldable pub win_share : ℕ → ℕ → ℕ → Option (ℤ × ℕ)
win_share won lost size = if size == 0 then some (pos 0, 1) else some (pos won -ℤ pos lost, size)

-- `rank_biserial`: the number of wins less that of losses, and what it is divided by.
unfoldable pub rank_biserial : List ℤ → Option (ℤ × ℕ)
rank_biserial [] = none
rank_biserial (d ∷ ds) =
    let nonzero = keep is_nonzero (d ∷ ds) in
    win_share (count_if is_positive nonzero) (count_if is_negative nonzero) (length nonzero)

-- `sum(a > b for a in left for b in right)`
unfoldable pub wins : List ℤ → List ℤ → ℕ
wins [] right = 0
wins (a ∷ left) right = count_if (λ b. ltb_ℤ b a) right + wins left right

unfoldable pub losses : List ℤ → List ℤ → ℕ
losses [] right = 0
losses (a ∷ left) right = count_if (λ b. ltb_ℤ a b) right + losses left right

-- `cliffs_delta`: the wins less the losses, and what it is divided by.
unfoldable pub cliffs_delta : List ℤ → List ℤ → Option (ℤ × ℕ)
cliffs_delta [] right = none
cliffs_delta (a ∷ left) [] = none
cliffs_delta (a ∷ left) (b ∷ right) = some (
  pos (wins (a ∷ left) (b ∷ right)) -ℤ pos (losses (a ∷ left) (b ∷ right)),
  length (a ∷ left) * length (b ∷ right),
)

-- `sorted(enumerate(p_values), key=lambda item: item[1])`
unfoldable pub insert_indexed : ℕ × ℕ → List (ℕ × ℕ) → List (ℕ × ℕ)
insert_indexed x [] = x ∷ []
insert_indexed x (y ∷ ys) =
    let rest = insert_indexed x ys in if ltb y.1 x.1 then y ∷ rest else x ∷ y ∷ ys

unfoldable pub sort_indexed : ℕ → List ℕ → List (ℕ × ℕ)
sort_indexed i [] = []
sort_indexed i (p ∷ ps) = insert_indexed (i, p) (sort_indexed (suc i) ps)

-- The loop of `holm_bonferroni` from a rank on: the index and the adjusted value of each step. `left`
-- is `len(p_values) - rank`.
unfoldable pub holm_steps : ℕ → ℕ → ℕ → List (ℕ × ℕ) → List (ℕ × ℕ)
holm_steps one left running [] = []
holm_steps one left running ((index, value) ∷ rest) =
    let now = max running (min one (left * value)) in
    (index, now) ∷ holm_steps one (left - 1) now rest

-- `adjusted[index]` after the loop.
unfoldable pub written : ℕ → List (ℕ × ℕ) → ℕ
written i [] = 0
written i ((j, v) ∷ steps) = if j == i then v else written i steps

abbrev pub positions : ℕ → List ℕ → List ℕ
positions i [] = []
positions i (p ∷ ps) = i ∷ positions (suc i) ps

-- `holm_bonferroni`
unfoldable pub holm_bonferroni : ℕ → List ℕ → List ℕ
holm_bonferroni one ps =
    let steps = holm_steps one (length ps) 0 (sort_indexed 0 ps) in
    map (λ i. written i steps) (positions 0 ps)
