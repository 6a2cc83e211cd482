-- ===== src/Reporting/Stats/Effects.antt =====
-- The effect sizes of src/rag_eval/reporting/stats.py: `rank_biserial` and `cliffs_delta`.
use rag_eval.Prelude.{
  ℕ, ◌+◌, ◌*◌, ◌≤◌, ◌<◌, ◌≡◌, ◌↔◌, Option, none, some, List, [], ◌∷◌, count_if, keep, length, refl,
  sym, arith,
}
use rag_eval.Prelude.Int.{ℤ, pos, ◌-ℤ◌, ltb_ℤ, neg, abs}
use rag_eval.Reporting.Stats.{
  is_positive, is_negative, is_nonzero, win_share, rank_biserial, wins, losses, cliffs_delta,
}

-- Exchanging the two samples exchanges the pairs won and lost.
wins_cons :
    (b : ℤ) (left right : List ℤ)
    → wins left (b ∷ right) ≡ count_if (λ a. ltb_ℤ b a) left + wins left right
unfolding wins
wins_cons b [] right = refl
wins_cons b (a ∷ left) right = ground (arith, wins_cons b left right)

losses_nil : (left : List ℤ) → losses left [] ≡ 0
unfolding losses
losses_nil [] = refl
losses_nil (a ∷ left) = omega (arith, losses_nil left)

wins_nil : (left : List ℤ) → wins left [] ≡ 0
unfolding wins
wins_nil [] = refl
wins_nil (a ∷ left) = omega (arith, wins_nil left)

wins-losses : (left right : List ℤ) → wins left right ≡ losses right left
unfolding losses
wins-losses left [] = wins_nil left
wins-losses left (b ∷ right) = omega (arith, wins_cons b left right, wins-losses left right)

-- No pair is both won and lost.
count_disjoint :
    (a : ℤ) (right : List ℤ)
    → count_if (λ b. ltb_ℤ b a) right + count_if (λ b. ltb_ℤ a b) right ≤ length right
count_disjoint a [] = omega arith
count_disjoint a (b ∷ right) = ground (arith, count_disjoint a right)

wins-losses_le :
    (left right : List ℤ) → wins left right + losses left right ≤ length left * length right
unfolding wins losses
wins-losses_le [] right = omega arith
wins-losses_le (a ∷ left) right = omega (arith, wins-losses_le left right, count_disjoint a right)

sub_swap : (m n : ℕ) → pos n -ℤ pos m ≡ neg (pos m -ℤ pos n)
unfolding ◌-ℤ◌ neg
sub_swap m n = ground arith

abs_sub_le : (m n : ℕ) → abs (pos m -ℤ pos n) ≤ m + n
unfolding ◌-ℤ◌
abs_sub_le m n = ground arith

abbrev pub negated : Option (ℤ × ℕ) → Option (ℤ × ℕ)
negated none = none
negated (some (v, n)) = some (neg v, n)

-- Exchanging the samples negates Cliff's delta, which is absent exactly where one of the samples is
-- empty, and lies between -1 and 1.
pub cliffs_delta_antisymmetric :
    (left right : List ℤ)
    → (cliffs_delta right left ≡ negated (cliffs_delta left right))
      × ((v : ℤ) (n : ℕ) → cliffs_delta left right ≡ some (v, n) → (abs v ≤ n) × (0 < n))
unfolding cliffs_delta
cliffs_delta_antisymmetric [] [] = (refl, λ v n e. absurd (ground arith))
cliffs_delta_antisymmetric [] (b ∷ right) = (refl, λ v n e. absurd (ground arith))
cliffs_delta_antisymmetric (a ∷ left) [] = (refl, λ v n e. absurd (ground arith))
cliffs_delta_antisymmetric (a ∷ left) (b ∷ right) =
    let l : List ℤ = a ∷ left in
    let r : List ℤ = b ∷ right in
    let won : wins r l ≡ losses l r = wins-losses r l in
    let lost : losses r l ≡ wins l r = sym (wins-losses l r) in
    let pairs : length r * length l ≡ length l * length r = omega arith in
    let swapped = sub_swap (wins l r) (losses l r) in
    (cc, λ v n e. ground (arith, abs_sub_le (wins l r) (losses l r), wins-losses_le l r))

counts_nonzero :
    (ds : List ℤ)
    → let nonzero = keep is_nonzero ds in
      count_if is_positive nonzero + count_if is_negative nonzero ≡ length nonzero
counts_nonzero [] = refl
counts_nonzero (d ∷ ds) = ground (arith, counts_nonzero ds)

negative_nonzero :
    (ds : List ℤ) → count_if is_negative (keep is_nonzero ds) ≡ count_if is_negative ds
negative_nonzero [] = refl
negative_nonzero (d ∷ ds) = ground (arith, negative_nonzero ds)

difference_is_first : (m n : ℕ) → (pos m -ℤ pos n ≡ pos (m + n)) ↔ (n ≡ 0)
unfolding ◌-ℤ◌
difference_is_first m n = ground arith

ends :
    (p q negatives size : ℕ) (v : ℤ) (n : ℕ)
    → p + q ≡ size
    → q ≡ negatives
    → win_share p q size ≡ some (v, n)
    → (abs v ≤ n) × (0 < n) × ((v ≡ pos n) ↔ ((negatives ≡ 0) × (0 < size)))
unfolding win_share
ends p q negatives size v n counted kept e = ground (arith, abs_sub_le p q, difference_is_first p q)

-- The rank-biserial correlation is absent exactly for an empty list, and lies between -1 and 1: it
-- is 1 exactly if some difference is not zero and no difference is negative.
pub rank_biserial_bounds :
    (ds : List ℤ) (v : ℤ) (n : ℕ)
    → rank_biserial ds ≡ some (v, n)
    → (abs v ≤ n)
      × (0 < n)
      × ((v ≡ pos n) ↔ ((count_if is_negative ds ≡ 0) × (0 < length (keep is_nonzero ds))))
unfolding rank_biserial
rank_biserial_bounds [] v n e = absurd (ground arith)
rank_biserial_bounds (d ∷ ds) v n e =
    let nonzero : List ℤ = keep is_nonzero (d ∷ ds) in
    ends (count_if is_positive nonzero) (count_if is_negative nonzero)
      (count_if is_negative (d ∷ ds)) (length nonzero) v n (counts_nonzero (d ∷ ds))
      (negative_nonzero (d ∷ ds)) e
