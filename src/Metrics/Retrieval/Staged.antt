-- ===== src/Metrics/Retrieval/Staged.antt =====
-- The later metrics of src/rag_eval/metrics/retrieval.py: F1AtK, FirstRelevantRank, DocumentRecall
-- and PageRecall.
--
-- A set of keys is a list with one entry for each key. A source that is null raises, as in
-- `match_gold_evidence`; a source without a document has the key null, which equals a null key.
use rag_eval.Prelude.{
  ℕ, ◌+◌, ◌*◌, Bool, ◌&&◌, Option, none, some, List, [], ◌∷◌, any, count_if, take, length,
  if◌then◌else◌,
}
use rag_eval.Metrics.Matching.{
  SourceLocation, RetrievedItem, SpanMatch, same_text, same_number, match_gold_evidence,
}
use rag_eval.Metrics.Retrieval.{
  Fraction, Outcome, failed, computed, safe_divide, is_item_relevant, first_relevant_rank,
}

-- `F1AtK.compute` from the precision and the recall on.
unfoldable pub harmonic_mean : Fraction → Fraction → Fraction
harmonic_mean p r = safe_divide (2 * (p.num * r.num)) (p.num * r.den + r.num * p.den)

f1_of : ℕ → ℕ → List SourceLocation → Option (List SpanMatch) → Outcome
f1_of k relevant gold none = failed
f1_of k relevant gold (some matches) = computed (
    harmonic_mean (safe_divide relevant k)
      (safe_divide (count_if (λ m. m.matched) matches) (length gold)))

-- `F1AtK.compute`, from the items on.
unfoldable pub f1_at_k : ℕ → List RetrievedItem → List SourceLocation → Outcome
unfolding f1_of
f1_at_k k items gold =
    f1_of k (count_if (is_item_relevant gold) (take k items)) gold
      (match_gold_evidence gold (take k items))

-- `FirstRelevantRank.compute`
unfoldable pub first_rank_at_k : ℕ → List RetrievedItem → List SourceLocation → Option ℕ
first_rank_at_k k items gold = first_relevant_rank gold 0 (take k items)

-- The sources of all items, or `none` where the access to a null source raises.
unfoldable pub sources_of : List RetrievedItem → Option (List SourceLocation)
sources_of [] = some []
sources_of (item ∷ items) =
    let rest = sources_of items in
    elim item.source [
      | none ↦ none
      | some src ↦ elim rest [ none ↦ none | some srcs ↦ some (src ∷ srcs) ]
    ]

-- One entry for each key of a list.
unfoldable pub distinct {ℓ} : {A : Type ℓ} → (A → A → Bool) → List A → List A
distinct same [] = []
distinct same (x ∷ xs) = let rest = distinct same xs in if any (same x) rest then rest else x ∷ rest

recall_by :
    (SourceLocation → SourceLocation → Bool)
    → List SourceLocation
    → Option (List SourceLocation)
    → Outcome
recall_by same gold none = failed
recall_by same gold (some srcs) = computed (
    safe_divide (count_if (λ g. any (same g) srcs) (distinct same gold))
      (length (distinct same gold)))

-- The document of a location, as a key.
abbrev pub same_document_key : SourceLocation → SourceLocation → Bool
same_document_key a b = same_text a.document_id b.document_id

-- The document and the page of a location, as a key.
abbrev pub same_page_key : SourceLocation → SourceLocation → Bool
same_page_key a b = same_text a.document_id b.document_id && same_number a.page b.page

-- `DocumentRecall.compute`
unfoldable pub document_recall : ℕ → List RetrievedItem → List SourceLocation → Outcome
unfolding recall_by
document_recall k items gold = recall_by same_document_key gold (sources_of (take k items))

-- `PageRecall.compute`
unfoldable pub page_recall : ℕ → List RetrievedItem → List SourceLocation → Outcome
unfolding recall_by
page_recall k items gold = recall_by same_page_key gold (sources_of (take k items))
