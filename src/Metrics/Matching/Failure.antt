-- ===== src/Metrics/Matching/Failure.antt =====
-- Where `match_gold_evidence` (src/rag_eval/metrics/helpers.py) raises.
use rag_eval.Prelude.{
  ℕ, suc, ◌≡◌, Bool, true, false, not, none, some, List, [], ◌∷◌, any, arith, is_some,
}
use rag_eval.Metrics.Matching.{
  SourceLocation, RetrievedItem, Found, page, scan, no_document, search_items, match_one,
  match_gold_evidence,
}
use rag_eval.Metrics.Matching.Laws.{in_span}

abbrev pub has_no_source : RetrievedItem → Bool
has_no_source item = not (is_some item.source)

scan-raises :
    (gold : SourceLocation) (idx : ℕ) (found : Found) (items : List RetrievedItem)
    → any (in_span gold) items ≡ false
    → any has_no_source items ≡ true
    → scan gold idx found items ≡ none
unfolding scan
scan-raises gold idx found [] h e = cc
scan-raises gold idx found (item ∷ items) h e = ground (
  arith,
  scan-raises gold (suc idx) found items,
  scan-raises gold (suc idx) (some (idx, page)) items,
)

-- One retrieved item without a source makes the matching of all gold evidence raise, as soon as
-- some piece of it has a document and overlaps no retrieved span.
pub missing_source_raises :
    (gold : SourceLocation) (golds : List SourceLocation) (items : List RetrievedItem)
    → no_document gold.document_id ≡ false
    → any (in_span gold) items ≡ false
    → any has_no_source items ≡ true
    → match_gold_evidence (gold ∷ golds) items ≡ none
unfolding match_gold_evidence match_one search_items
missing_source_raises gold golds items d h e = ground (arith, scan-raises gold 0 none items h e)
