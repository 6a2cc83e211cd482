-- ===== src/Metrics/Spans.antt =====
-- The length of a union of spans: `compute_span_union_length` of src/rag_eval/metrics/helpers.py.
--
-- Offsets are not negative. `sorted` is stable, as insertion before the first later start is.
pub mod Union
use rag_eval.Prelude.{
  ℕ, ◌+◌, ◌-◌, ◌≤◌, Bool, true, false, List, [], ◌∷◌, leb, max, sum, map, if◌then◌else◌,
}

-- A span (start, end).
abbrev pub Span : Type 0
Span = ℕ × ℕ

-- `sorted(spans, key=lambda s: s[0])`
unfoldable pub insert_span : Span → List Span → List Span
insert_span (start, end) [] = (start, end) ∷ []
insert_span (start, end) ((s, e) ∷ rest) =
    let later = insert_span (start, end) rest in
    if leb start s then (start, end) ∷ (s, e) ∷ rest else (s, e) ∷ later

unfoldable pub sort_spans : List Span → List Span
sort_spans [] = []
sort_spans (s ∷ rest) = insert_span s (sort_spans rest)

-- The merging loop, from the last merged span on.
unfoldable pub merge_spans : ℕ → ℕ → List Span → List Span
merge_spans last_start last_end [] = (last_start, last_end) ∷ []
merge_spans last_start last_end ((start, end) ∷ rest) =
    let extended = merge_spans last_start (max last_end end) rest in
    let appended = merge_spans start end rest in
    if leb start last_end then extended else (last_start, last_end) ∷ appended

-- `sum(end - start for start, end in merged)`; no span ends before it starts.
unfoldable pub total_length : List Span → ℕ
total_length [] = 0
total_length ((start, end) ∷ rest) = (end - start) + total_length rest

merged_length : List Span → ℕ
merged_length [] = 0
merged_length ((start, end) ∷ rest) = total_length (merge_spans start end rest)

-- `compute_span_union_length`
unfoldable pub compute_span_union_length : List Span → ℕ
unfolding merged_length
compute_span_union_length spans = merged_length (sort_spans spans)
