-- ===== src/Metrics/Matching/Total.antt =====
-- Where every retrieved item has a source, `match_gold_evidence` (src/rag_eval/metrics/helpers.py)
-- never raises.
use rag_eval.Prelude.{
  ℕ, suc, ◌≡◌, ◌≢◌, inl, inr, Bool, true, false, not, ◌&&◌, none, some, List, [], ◌∷◌, any,
  count_if, length, refl, arith, Option-cases, Bool-cases, is_some,
}
use rag_eval.Metrics.Matching.{
  SourceLocation, RetrievedItem, MatchType, Found, SpanMatch, page, document, span_match,
  same_document, page_test, scan, first_where, page_loop, document_loop, no_document, search_items,
  match_one, match_gold_evidence,
}
use rag_eval.Metrics.Matching.Laws.{in_document, match_one-grade}
use rag_eval.Metrics.Matching.Failure.{has_no_source}

scan-total :
    (gold : SourceLocation) (idx : ℕ) (found : Found) (items : List RetrievedItem)
    → any has_no_source items ≡ false
    → is_some (scan gold idx found items) ≡ true
unfolding scan
scan-total gold idx found [] e = refl
scan-total gold idx found (item ∷ items) e = ground (
  arith,
  scan-total gold (suc idx) found items,
  scan-total gold (suc idx) (some (idx, page)) items,
)

first_where-total :
    (test : SourceLocation → Bool) (kind : MatchType) (idx : ℕ) (items : List RetrievedItem)
    → any has_no_source items ≡ false
    → is_some (first_where test kind idx items) ≡ true
unfolding first_where
first_where-total test kind idx [] e = refl
first_where-total test kind idx (item ∷ items) e =
    ground (arith, first_where-total test kind (suc idx) items)

search_items-total :
    (gold : SourceLocation) (items : List RetrievedItem)
    → any has_no_source items ≡ false
    → is_some (search_items gold items) ≡ true
unfolding search_items page_loop document_loop
search_items-total gold items e = ground (
  arith,
  scan-total gold 0 none items e,
  first_where-total (same_document gold) document 0 items e,
  first_where-total (λ (src : SourceLocation). same_document gold src && page_test gold src) page 0
      items e,
)

-- Gold evidence that counts as retrieved: it has a document, and some item is of that document.
abbrev pub retrieved : List RetrievedItem → SourceLocation → Bool
retrieved items gold = not (no_document gold.document_id) && any (in_document gold) items

match_one-none :
    (gold : SourceLocation) (items : List RetrievedItem)
    → any has_no_source items ≡ false
    → match_one gold items ≢ none
unfolding match_one
match_one-none gold items e = ground (arith, search_items-total gold items e)

match_one-bare :
    (gold : SourceLocation) (items : List RetrievedItem)
    → no_document gold.document_id ≡ true
    → match_one gold items ≡ some (span_match none)
unfolding match_one
match_one-bare gold items e = ground arith

match_one-total :
    (gold : SourceLocation) (items : List RetrievedItem)
    → any has_no_source items ≡ false
    → (m : SpanMatch) × (match_one gold items ≡ some m) × (m.matched ≡ retrieved items gold)
match_one-total gold items e = elim (Bool-cases (no_document gold.document_id)) [
  | inl bare ↦ (span_match none, match_one-bare gold items bare, ground arith)
  | inr full ↦ elim (Option-cases (match_one gold items)) [
    | inl raised ↦ absurd (match_one-none gold items e raised)
    | inr (m, found) ↦ (m, found, ground (arith, match_one-grade gold items m full found))
  ]
]

-- Matching never raises where every item has a source. It gives one match for each piece of gold
-- evidence, and as many of them are matched as there are pieces whose document was retrieved.
pub match_gold_evidence-total :
    (golds : List SourceLocation) (items : List RetrievedItem)
    → any has_no_source items ≡ false
    → (ms : List SpanMatch) × (match_gold_evidence golds items ≡ some ms)
      × (length ms ≡ length golds)
      × (count_if (λ m. m.matched) ms ≡ count_if (retrieved items) golds)
unfolding match_gold_evidence
match_gold_evidence-total [] items e = ([], refl, refl, refl)
match_gold_evidence-total (gold ∷ golds) items e =
    let (m, one, hit) = match_one-total gold items e in
    let (ms, rest, len, hits) = match_gold_evidence-total golds items e in
    (m ∷ ms, ground arith, omega (arith, len), ground arith)
