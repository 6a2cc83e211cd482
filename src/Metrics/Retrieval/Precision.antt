-- ===== src/Metrics/Retrieval/Precision.antt =====
-- Average precision, precision and hits (src/rag_eval/metrics/retrieval.py): how they relate, and
-- where a value leaves the range that its documentation gives.
use rag_eval.Prelude.{
  ℕ, zero, suc, ◌+◌, ◌*◌, ◌≤◌, ◌<◌, ◌≡◌, min, false, none, some, is_some, List, [], ◌∷◌, any, leb,
  count_if, count_if-le, take, length, length-take_le, length-take_le_length, indicator, refl,
  arith, inl, inr, Bool-cases,
}
use rag_eval.Metrics.Matching.{SourceLocation, RetrievedItem}
use rag_eval.Metrics.Retrieval.Staged.{first_rank_at_k}
use rag_eval.Metrics.Retrieval.{
  Fraction, computed, is_item_relevant, hit_at_k, precision_at_k, safe_divide, first_relevant_rank,
  sum_precision, map_at_k, add_fraction, zero_value,
}
use rag_eval.Metrics.Retrieval.Scores.{InUnit}

-- A sum of `n` fractions, none above 1, is at most `n`.
abbrev AtMost : ℕ → Fraction → Type 0
AtMost n f = (f.num ≤ n * f.den) × (0 < f.den)

mul_mono_right : (a b c : ℕ) → a ≤ b → a * c ≤ b * c
mul_mono_right a b c h = grind arith

mul_positive : (a b : ℕ) → 0 < a → 0 < b → 0 < a * b
mul_positive a b p q = grind arith

add_fraction-AtMost :
    (n : ℕ) (a b : Fraction)
    → a.num ≤ a.den
    → 0 < a.den
    → AtMost n b
    → AtMost (suc n) (add_fraction a b)
add_fraction-AtMost n a b h p (l, q) = (
  omega (arith, mul_mono_right a.num a.den b.den h, mul_mono_right b.num (n * b.den) a.den l),
  mul_positive a.den b.den p q,
)

sum_precision-AtMost :
    (gold : List SourceLocation) (i found : ℕ) (items : List RetrievedItem)
    → found ≤ i
    → AtMost (count_if (is_item_relevant gold) items) (sum_precision gold i found items)
unfolding sum_precision
sum_precision-AtMost gold i found [] h = omega arith
sum_precision-AtMost gold i found (item ∷ items) h =
    elim (Bool-cases (is_item_relevant gold item)) [
      | inl e ↦
          let rest = sum_precision-AtMost gold (suc i) (found + 1) items (omega arith) in
          let sum =
            add_fraction-AtMost (count_if (is_item_relevant gold) items)
              (record { num = found + 1; den = i + 1 })
              (sum_precision gold (suc i) (found + 1) items) (omega arith) (omega arith) rest in
          rw (e, sum_precision) (omega (arith, sum))
      | inr e ↦
          let rest = sum_precision-AtMost gold (suc i) found items (omega arith) in
          rw (e, sum_precision) (omega (arith, rest))
    ]

-- With no more relevant items among the first `k` than gold evidence, average precision lies between
-- 0 and 1.
pub map_at_k-InUnit :
    (k : ℕ) (items : List RetrievedItem) (gold : List SourceLocation)
    → count_if (is_item_relevant gold) (take k items) ≤ length gold
    → InUnit (map_at_k k items gold)
unfolding map_at_k
map_at_k-InUnit k items gold h =
    let s : Fraction = sum_precision gold 0 0 (take k items) in
    let (above, positive) = sum_precision-AtMost gold 0 0 (take k items) (omega arith) in
    let relevant : ℕ = count_if (is_item_relevant gold) (take k items) in
    let fits : relevant ≤ min (length gold) k =
      omega (arith, count_if-le (is_item_relevant gold) (take k items), length-take_le k items) in
    let bound = mul_mono_right relevant (min (length gold) k) s.den fits in
    ground (arith, above, bound, mul_positive s.den (min (length gold) k) positive)

sum_of_equals : (a b d m r : ℕ) → b ≡ a → r ≡ m * d → b * d + r * a ≡ suc m * (a * d)
sum_of_equals a b d m r e h = rw (e, h) grind arith

sum_precision-all :
    (gold : List SourceLocation) (i found : ℕ) (items : List RetrievedItem)
    → found ≡ i
    → count_if (is_item_relevant gold) items ≡ length items
    → (sum_precision gold i found items).num ≡ length items * (sum_precision gold i found items).den
unfolding sum_precision
sum_precision-all gold i found [] same h = omega arith
sum_precision-all gold i found (item ∷ items) same h =
    elim (Bool-cases (is_item_relevant gold item)) [
      | inl e ↦
          let rest : Fraction = sum_precision gold (suc i) (found + 1) items in
          let inner : rest.num ≡ length items * rest.den =
            sum_precision-all gold (suc i) (found + 1) items (omega arith) (ground arith) in
          rw (e, sum_precision)
            (sum_of_equals (i + 1) (found + 1) rest.den (length items) rest.num (omega arith) inner)
      | inr e ↦
          let all : suc (length items) ≤ count_if (is_item_relevant gold) items = ground arith in
          absurd (omega (arith, count_if-le (is_item_relevant gold) items, all))
    ]

rank-within :
    (gold : List SourceLocation) (idx k : ℕ) (items : List RetrievedItem)
    → any (is_item_relevant gold) (take k items) ≡ (elim (first_relevant_rank gold idx items) [
      | none ↦ false
      | some rank ↦ leb rank (idx + k)
    ])
unfolding first_relevant_rank
rank-within gold idx zero [] = refl
rank-within gold idx (suc k) [] = refl
rank-within gold idx zero (item ∷ items) = ground (arith, rank-within gold (suc idx) zero items)
rank-within gold idx (suc k) (item ∷ items) = ground (arith, rank-within gold (suc idx) k items)

-- Hit@K is 1 exactly where the rank that MRR inverts exists and is at most `k`, and 0 elsewhere.
pub hit_at_k-rank :
    (k : ℕ) (items : List RetrievedItem) (gold : List SourceLocation)
    → hit_at_k k items gold ≡ (elim (first_relevant_rank gold 0 items) [
      | none ↦ zero_value
      | some rank ↦ computed (record { num = indicator (leb rank k); den = 1 })
    ])
unfolding hit_at_k
hit_at_k-rank k items gold = ground (arith, rank-within gold 0 k items)

rank_exists :
    (gold : List SourceLocation) (idx : ℕ) (items : List RetrievedItem)
    → any (is_item_relevant gold) items ≡ is_some (first_relevant_rank gold idx items)
unfolding first_relevant_rank
rank_exists gold idx [] = refl
rank_exists gold idx (item ∷ items) = ground (arith, rank_exists gold (suc idx) items)

-- The first relevant rank at K exists exactly where Hit@K is 1, also for `k` 0 and no items.
pub first_rank_at_k-hit :
    (k : ℕ) (items : List RetrievedItem) (gold : List SourceLocation)
    → hit_at_k k items gold
      ≡ computed (record { num = indicator (is_some (first_rank_at_k k items gold)); den = 1 })
unfolding hit_at_k first_rank_at_k first_relevant_rank
first_rank_at_k-hit k items gold = ground (arith, rank_exists gold 0 (take k items))

exceeds : (m n d s : ℕ) → s ≡ m * d → n < m → 0 < d → d * n < s
exceeds m n d s e l p = grind (arith, mul_mono_right (suc n) m d l)

-- Average precision is not bounded by 1 in general: where the first `k` items are all relevant and
-- there are fewer pieces of gold evidence (but some), several items match the same piece, each of
-- them counts, and the value is above 1.
pub map_at_k-exceeds :
    (k : ℕ) (items : List RetrievedItem) (gold : List SourceLocation)
    → count_if (is_item_relevant gold) (take k items) ≡ length (take k items)
    → 0 < length gold
    → length gold < length (take k items)
    → (f : Fraction) × (map_at_k k items gold ≡ computed f) × (f.den < f.num)
unfolding map_at_k
map_at_k-exceeds k items gold h some_gold fewer =
    let s : Fraction = sum_precision gold 0 0 (take k items) in
    let (above, positive) = sum_precision-AtMost gold 0 0 (take k items) (omega arith) in
    let n : ℕ = min (length gold) k in
    (
      record { num = s.num; den = s.den * n },
      ground arith,
      exceeds (length (take k items)) n s.den s.num
          (sum_precision-all gold 0 0 (take k items) refl h) (omega arith) positive,
    )

-- Precision@K divides by `k` also where fewer items were retrieved: then it is below 1 even if every
-- retrieved item is relevant.
pub precision_at_k-short :
    (k : ℕ) (items : List RetrievedItem) (gold : List SourceLocation)
    → length items < k
    → (f : Fraction) × (precision_at_k k items gold ≡ computed f) × (f.num < f.den)
unfolding precision_at_k safe_divide
precision_at_k-short k [] gold h = (record { num = 0; den = 1 }, ground arith, omega arith)
precision_at_k-short zero (i ∷ items) gold h = elim h [ ]
precision_at_k-short (suc k) (i ∷ items) gold h = (
  record { num = count_if (is_item_relevant gold) (take (suc k) (i ∷ items)); den = suc k },
  ground arith,
  omega (
    arith,
    count_if-le (is_item_relevant gold) (take (suc k) (i ∷ items)),
    length-take_le_length (suc k) (i ∷ items),
  ),
)
