-- ===== src/Metrics/Retrieval/Recall.antt =====
-- What `RecallAtK` of src/rag_eval/metrics/retrieval.py counts, by way of `match_gold_evidence`.
use rag_eval.Prelude.{
  ℕ, suc, ◌≡◌, ◌≢◌, ◌↔◌, ◌⊎◌, inl, inr, String, true, false, List, [], ◌∷◌, Option, none, any,
  count_if, take, length, refl, arith, Option-cases,
}
use rag_eval.Metrics.Matching.{SourceLocation, RetrievedItem, no_document}
use rag_eval.Metrics.Matching.Laws.{in_span}
use rag_eval.Metrics.Matching.Failure.{has_no_source, missing_source_raises}
use rag_eval.Metrics.Matching.Total.{retrieved, match_gold_evidence-total}
use rag_eval.Metrics.Retrieval.{
  MetricContext, RetrievalStageType, get_stage, with_inputs, unavailable, failed, computed,
  safe_divide, recall_at_k,
}

-- Where the first `k` items all have a source, Recall@K is the share of the gold evidence whose
-- document is among their documents. Pages and spans, which the matching reports, make no
-- difference to it.
pub recall_at_k-documents :
    (k : ℕ) (item : RetrievedItem) (items : List RetrievedItem) (gold : List SourceLocation)
    → any has_no_source (take (suc k) (item ∷ items)) ≡ false
    → recall_at_k (suc k) (item ∷ items) gold
      ≡ computed
          (safe_divide (count_if (retrieved (take (suc k) (item ∷ items))) gold) (length gold))
unfolding recall_at_k
recall_at_k-documents k item items gold h =
    let (ms, found, len, hits) = match_gold_evidence-total gold (take (suc k) (item ∷ items)) h in
    rw (found, recall_at_k) (rw hits refl)

-- One item without a source among the first `k` makes Recall@K fail for the whole case, where the
-- first piece of gold evidence has a document and overlaps no retrieved span.
pub recall_at_k-fails :
    (k : ℕ) (item : RetrievedItem) (items : List RetrievedItem) (gold : SourceLocation)
    (golds : List SourceLocation)
    → no_document gold.document_id ≡ false
    → any (in_span gold) (take (suc k) (item ∷ items)) ≡ false
    → any has_no_source (take (suc k) (item ∷ items)) ≡ true
    → recall_at_k (suc k) (item ∷ items) (gold ∷ golds) ≡ failed
unfolding recall_at_k
recall_at_k-fails k item items gold golds d h e =
    let raised = missing_source_raises gold golds (take (suc k) (item ∷ items)) d h e in
    rw (raised, recall_at_k) refl

recall_at_k-available :
    (k : ℕ) (items : List RetrievedItem) (gold : List SourceLocation)
    → recall_at_k k items gold ≢ unavailable
unfolding recall_at_k
recall_at_k-available k items gold = ground arith

-- Recall@K is unavailable for a case exactly when the case has no gold evidence or its observation
-- has no such stage; with both of them it is computed, or it fails.
pub recall_at_k-unavailable :
    (c : MetricContext) (id : Option String) (t : Option RetrievalStageType) (k : ℕ)
    → (with_inputs c id t (recall_at_k k) ≡ unavailable)
      ↔ ((c.gold_evidence ≡ []) ⊎ (get_stage c id t ≡ none))
unfolding with_inputs
recall_at_k-unavailable c id t k = elim (Option-cases (get_stage c id t)) [
  | inl missing ↦ (λ h. inr missing, λ h. ground arith)
  | inr (stage, found) ↦
      (λ h. ground (arith, recall_at_k-available k stage.items c.gold_evidence), λ h. ground arith)
]
