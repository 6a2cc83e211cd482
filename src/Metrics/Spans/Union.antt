-- ===== src/Metrics/Spans/Union.antt =====
-- `compute_span_union_length` of src/rag_eval/metrics/helpers.py against a count of positions.
use rag_eval.Prelude.{
  ℕ, zero, suc, ◌+◌, ◌-◌, ◌≤◌, ◌<◌, ◌≡◌, Bool, false, ◌&&◌, List, [], ◌∷◌, leb, ltb, max, min, any,
  indicator, All, refl, arith, inl, inr, Bool-cases, ◌∙◌, sym, ap,
}
use rag_eval.Metrics.Spans.{
  Span, insert_span, sort_spans, merge_spans, total_length, merged_length,
  compute_span_union_length,
}

-- Whether a position lies in a span, the end excluded.
abbrev pub contains : ℕ → Span → Bool
contains p (start, end) = leb start p && ltb p end

-- How many of the first `n` positions lie in some span.
abbrev pub covered : List Span → ℕ → ℕ
covered spans zero = 0
covered spans (suc n) = indicator (any (contains n) spans) + covered spans n

-- A span that does not end before it starts, and ends within the first `n` positions.
abbrev pub Within : ℕ → Span → Type 0
Within n (start, end) = (start ≤ end) × (end ≤ n)

covered-same :
    (xs ys : List Span) (n : ℕ)
    → ((p : ℕ) → any (contains p) xs ≡ any (contains p) ys)
    → covered xs n ≡ covered ys n
covered-same xs ys zero h = refl
covered-same xs ys (suc n) h = rw (h n) (omega (arith, covered-same xs ys n h))

any-insert_span :
    (p : ℕ) (x : Span) (xs : List Span)
    → any (contains p) (insert_span x xs) ≡ any (contains p) (x ∷ xs)
unfolding insert_span
any-insert_span p x [] = refl
any-insert_span p x (y ∷ rest) = ground (arith, any-insert_span p x rest)

any-sort_spans : (p : ℕ) (xs : List Span) → any (contains p) (sort_spans xs) ≡ any (contains p) xs
unfolding sort_spans
any-sort_spans p [] = refl
any-sort_spans p (x ∷ xs) =
    any-insert_span p x (sort_spans xs) ∙ ground (arith, any-sort_spans p xs)

Within-insert_span :
    (n : ℕ) (x : Span) (xs : List Span)
    → Within n x
    → All (Within n) xs
    → All (Within n) (insert_span x xs)
unfolding insert_span
Within-insert_span n x [] h hs = (h, tt)
Within-insert_span n x (y ∷ rest) h hs = ground (arith, Within-insert_span n x rest h hs.1)

Within-sort_spans : (n : ℕ) (xs : List Span) → All (Within n) xs → All (Within n) (sort_spans xs)
unfolding sort_spans
Within-sort_spans n [] h = tt
Within-sort_spans n (x ∷ xs) h =
    Within-insert_span n x (sort_spans xs) h.0 (Within-sort_spans n xs h.1)

-- The starts do not fall, and none is below `a`.
abbrev IsSorted : ℕ → List Span → Type 0
IsSorted a [] = Unit
IsSorted a ((start, end) ∷ rest) = (a ≤ start) × IsSorted start rest

insert_span-IsSorted :
    (a : ℕ) (x : Span) (xs : List Span) → a ≤ x.0 → IsSorted a xs → IsSorted a (insert_span x xs)
unfolding insert_span
insert_span-IsSorted a x [] h s = (h, tt)
insert_span-IsSorted a x ((start, end) ∷ rest) h s =
    ground (arith, insert_span-IsSorted start x rest)

sort_spans-IsSorted : (xs : List Span) → IsSorted 0 (sort_spans xs)
unfolding sort_spans
sort_spans-IsSorted [] = tt
sort_spans-IsSorted (x ∷ xs) =
    insert_span-IsSorted 0 x (sort_spans xs) (omega arith) (sort_spans-IsSorted xs)

covered-none : (n : ℕ) → covered [] n ≡ 0
covered-none zero = refl
covered-none (suc n) = omega (arith, covered-none n)

-- The positions of one span.
covered-one : (start end n : ℕ) → covered ((start, end) ∷ []) n ≡ min n end - min n start
covered-one start end zero = ground arith
covered-one start end (suc n) = ground (arith, covered-one start end n)

-- Two overlapping spans cover what their join covers.
contains-join :
    (p ls le s e : ℕ) (rest : List Span)
    → ls ≤ s
    → s ≤ le
    → any (contains p) ((ls, le) ∷ (s, e) ∷ rest) ≡ any (contains p) ((ls, max le e) ∷ rest)
contains-join p ls le s e rest h l = ground arith

-- No position before all starts is covered.
contains-before :
    (p a : ℕ) (spans : List Span) → IsSorted a spans → p < a → any (contains p) spans ≡ false
contains-before p a [] s h = refl
contains-before p a ((start, end) ∷ rest) s h =
    ground (arith, contains-before p start rest s.1 (omega arith))

-- A span that ends before all other starts adds its own positions.
covered-apart :
    (ls le a n : ℕ) (rest : List Span)
    → IsSorted a rest
    → le ≤ a
    → covered ((ls, le) ∷ rest) n ≡ covered ((ls, le) ∷ []) n + covered rest n
covered-apart ls le a zero rest s h = refl
covered-apart ls le a (suc n) rest s h =
    ground (arith, contains-before n a rest s, covered-apart ls le a n rest s h)

IsSorted-weaken : (a b : ℕ) (spans : List Span) → a ≤ b → IsSorted b spans → IsSorted a spans
IsSorted-weaken a b [] h s = tt
IsSorted-weaken a b ((start, end) ∷ rest) h s = (omega arith, s.1)

merge-extend :
    (ls le start end : ℕ) (rest : List Span)
    → start ≤ le
    → merge_spans ls le ((start, end) ∷ rest) ≡ merge_spans ls (max le end) rest
unfolding merge_spans
merge-extend ls le start end rest h = ground arith

merge-append :
    (ls le start end : ℕ) (rest : List Span)
    → le < start
    → total_length (merge_spans ls le ((start, end) ∷ rest))
      ≡ (le - ls) + total_length (merge_spans start end rest)
unfolding merge_spans total_length
merge-append ls le start end rest h = ground arith

merge_spans-covered :
    (n ls le : ℕ) (rest : List Span)
    → ls ≤ le
    → le ≤ n
    → IsSorted ls rest
    → All (Within n) rest
    → total_length (merge_spans ls le rest) ≡ covered ((ls, le) ∷ rest) n
unfolding merge_spans total_length
merge_spans-covered n ls le [] h l s w = rw (covered-one ls le n) (omega arith)
merge_spans-covered n ls le ((start, end) ∷ rest) h l s w = elim (Bool-cases (leb start le)) [
  | inl e ↦
      let touch : start ≤ le = ground arith in
      let joined =
        merge_spans-covered n ls (max le end) rest (omega arith) (omega (arith, w.0.1))
          (IsSorted-weaken ls start rest s.0 s.1) w.1 in
      let same =
        covered-same ((ls, le) ∷ (start, end) ∷ rest) ((ls, max le end) ∷ rest) n
          (λ p. contains-join p ls le start end rest s.0 touch) in
      ap total_length (merge-extend ls le start end rest touch) ∙ joined ∙ sym same
  | inr e ↦
      let apart : le < start = ground arith in
      let others = merge_spans-covered n start end rest w.0.0 w.0.1 s.1 w.1 in
      let split =
        covered-apart ls le start n ((start, end) ∷ rest) (omega arith, s.1) (omega arith) in
      merge-append ls le start end rest apart ∙ omega (arith, others, split, covered-one ls le n)
]

merged_length-covered :
    (n : ℕ) (spans : List Span)
    → IsSorted 0 spans
    → All (Within n) spans
    → merged_length spans ≡ covered spans n
unfolding merged_length
merged_length-covered n [] s w = sym (covered-none n)
merged_length-covered n ((start, end) ∷ rest) s w =
    merge_spans-covered n start end rest w.0.0 w.0.1 s.1 w.1

-- For spans that do not end before they start, in any order, overlapping or not, the length of the
-- union is the number of positions that lie in some span, among any first `n` positions that the
-- spans stay within.
pub compute_span_union_length-covered :
    (n : ℕ) (spans : List Span)
    → All (Within n) spans
    → compute_span_union_length spans ≡ covered spans n
unfolding compute_span_union_length
compute_span_union_length-covered n spans w =
    merged_length-covered n (sort_spans spans) (sort_spans-IsSorted spans)
      (Within-sort_spans n spans w)
    ∙ covered-same (sort_spans spans) spans n (λ p. any-sort_spans p spans)
