-- ===== src/Metrics/Retrieval/Scores.antt =====
-- The range of the retrieval metrics (src/rag_eval/metrics/retrieval.py).
use rag_eval.Prelude.{
  ℕ, suc, ◌+◌, ◌*◌, ◌≤◌, ◌<◌, ◌≡◌, min, Option, some, any, String, List, [], ◌∷◌, count_if,
  count_if-le, take, length, length-take_le, arith, inl, inr, Option-cases, Bool-cases,
}
use rag_eval.Metrics.Matching.{
  SourceLocation, RetrievedItem, SpanMatch, match_gold_evidence, match_one,
}
use rag_eval.Metrics.Retrieval.{
  MetricContext, RetrievalStageType, has_gold_evidence, get_stage, with_inputs, Outcome,
  unavailable, failed, computed, safe_divide, is_item_relevant, no_work, hit_at_k, precision_at_k,
  recall_at_k, first_relevant_rank, mrr, r_precision, Fraction,
}
use native.Mathlib.Nat.{mul-le-mul_left, mul_comm}
use rag_eval.Metrics.Retrieval.Staged.{
  harmonic_mean, f1_at_k, sources_of, distinct, same_document_key, same_page_key, document_recall,
  page_recall,
}

-- A computed value lies between 0 and 1.
abbrev pub InUnit : Outcome → Type 0
InUnit unavailable = Unit
InUnit failed = Unit
InUnit (computed f) = (f.num ≤ f.den) × (0 < f.den)

pub safe_divide-InUnit : (n d : ℕ) → n ≤ d → InUnit (computed (safe_divide n d))
unfolding safe_divide
safe_divide-InUnit n d h = ground arith

hit_at_k-InUnit :
    (k : ℕ) (items : List RetrievedItem) (gold : List SourceLocation)
    → InUnit (hit_at_k k items gold)
unfolding hit_at_k
hit_at_k-InUnit k items gold = ground arith

precision_at_k-InUnit :
    (k : ℕ) (items : List RetrievedItem) (gold : List SourceLocation)
    → InUnit (precision_at_k k items gold)
unfolding precision_at_k
precision_at_k-InUnit k items gold = elim (Bool-cases (no_work k items)) [
  | inl e ↦ rw (e, precision_at_k) (omega arith, omega arith)
  | inr e ↦
      rw (e, precision_at_k)
        (safe_divide-InUnit _ k (
          omega
            (arith, count_if-le (is_item_relevant gold) (take k items), length-take_le k items)))
]

pub length-match_gold_evidence :
    (golds : List SourceLocation) (items : List RetrievedItem) (ms : List SpanMatch)
    → match_gold_evidence golds items ≡ some ms
    → length ms ≡ length golds
unfolding match_gold_evidence
length-match_gold_evidence [] items ms h = ground arith
length-match_gold_evidence (g ∷ golds) items ms h = elim (Option-cases (match_one g items)) [
  | inl e ↦ absurd (ground arith)
  | inr (m, e) ↦ elim (Option-cases (match_gold_evidence golds items)) [
    | inl e' ↦ absurd (ground arith)
    | inr (rest, e') ↦ ground (arith, length-match_gold_evidence golds items rest e')
  ]
]

recall_at_k-InUnit :
    (k : ℕ) (items : List RetrievedItem) (gold : List SourceLocation)
    → InUnit (recall_at_k k items gold)
unfolding recall_at_k
recall_at_k-InUnit k items gold = elim (Bool-cases (no_work k items)) [
  | inl e ↦ rw (e, recall_at_k) (omega arith, omega arith)
  | inr e ↦ elim (Option-cases (match_gold_evidence gold (take k items))) [
    | inl raised ↦ rw (e, recall_at_k) (rw (raised, recall_at_k) tt)
    | inr (ms, found) ↦
        rw (e, recall_at_k)
          (rw (found, recall_at_k)
            (safe_divide-InUnit _ (length gold) (
              omega (
                arith,
                count_if-le (λ (m : SpanMatch). m.matched) ms,
                length-match_gold_evidence gold (take k items) ms found,
              ))))
  ]
]

first_relevant_rank-above :
    (gold : List SourceLocation) (idx : ℕ) (items : List RetrievedItem) (rank : ℕ)
    → first_relevant_rank gold idx items ≡ some rank
    → idx < rank
unfolding first_relevant_rank
first_relevant_rank-above gold idx [] rank h = cc
first_relevant_rank-above gold idx (item ∷ items) rank h =
    ground (arith, first_relevant_rank-above gold (suc idx) items rank)

mrr-InUnit : (items : List RetrievedItem) (gold : List SourceLocation) → InUnit (mrr items gold)
unfolding mrr
mrr-InUnit items gold = elim (Option-cases (first_relevant_rank gold 0 items)) [
  | inl e ↦ rw (e, mrr) (omega arith, omega arith)
  | inr (rank, e) ↦
      let above = first_relevant_rank-above gold 0 items rank e in
      rw (e, mrr) (omega arith, omega arith)
]

r_precision-InUnit :
    (items : List RetrievedItem) (gold : List SourceLocation) → InUnit (r_precision items gold)
unfolding r_precision
r_precision-InUnit items gold =
    let cutoff : ℕ = min (length gold) (length items) in
    safe_divide-InUnit _ cutoff (
      omega (
        arith,
        count_if-le (is_item_relevant gold) (take cutoff items),
        length-take_le cutoff items,
      ))

harmonic_mean-InUnit :
    (p r : Fraction)
    → InUnit (computed p)
    → InUnit (computed r)
    → InUnit (computed (harmonic_mean p r))
unfolding harmonic_mean
harmonic_mean-InUnit p r hp hr =
    let by_recall : p.num * r.num ≤ p.num * r.den = mul-le-mul_left p.num hr.0 in
    let by_precision : r.num * p.num ≤ r.num * p.den = mul-le-mul_left r.num hp.0 in
    let swap : r.num * p.num ≡ p.num * r.num = mul_comm r.num p.num in
    safe_divide-InUnit (2 * (p.num * r.num)) (p.num * r.den + r.num * p.den)
      (omega (arith, by_recall, by_precision, swap))

f1_at_k-InUnit :
    (k : ℕ) (items : List RetrievedItem) (gold : List SourceLocation)
    → InUnit (f1_at_k k items gold)
unfolding f1_at_k
f1_at_k-InUnit k items gold = elim (Option-cases (match_gold_evidence gold (take k items))) [
  | inl raised ↦ rw (raised, f1_at_k) tt
  | inr (ms, found) ↦
      let relevant = count_if (is_item_relevant gold) (take k items) in
      let matched = count_if (λ (m : SpanMatch). m.matched) ms in
      rw (found, f1_at_k)
        (harmonic_mean-InUnit (safe_divide relevant k) (safe_divide matched (length gold))
          (safe_divide-InUnit relevant k (
            omega
              (arith, count_if-le (is_item_relevant gold) (take k items), length-take_le k items)))
          (safe_divide-InUnit matched (length gold) (
            omega (
              arith,
              count_if-le (λ (m : SpanMatch). m.matched) ms,
              length-match_gold_evidence gold (take k items) ms found,
            ))))
]

document_recall-InUnit :
    (k : ℕ) (items : List RetrievedItem) (gold : List SourceLocation)
    → InUnit (document_recall k items gold)
unfolding document_recall
document_recall-InUnit k items gold = elim (Option-cases (sources_of (take k items))) [
  | inl raised ↦ rw (raised, document_recall) tt
  | inr (srcs, e) ↦
      rw (e, document_recall)
        (safe_divide-InUnit _ _
          (count_if-le (λ g. any (same_document_key g) srcs) (distinct same_document_key gold)))
]

page_recall-InUnit :
    (k : ℕ) (items : List RetrievedItem) (gold : List SourceLocation)
    → InUnit (page_recall k items gold)
unfolding page_recall
page_recall-InUnit k items gold = elim (Option-cases (sources_of (take k items))) [
  | inl raised ↦ rw (raised, page_recall) tt
  | inr (srcs, e) ↦
      rw (e, page_recall)
        (safe_divide-InUnit _ _
          (count_if-le (λ g. any (same_page_key g) srcs) (distinct same_page_key gold)))
]

with_inputs-InUnit :
    (c : MetricContext) (id : Option String) (t : Option RetrievalStageType)
    (f : List RetrievedItem → List SourceLocation → Outcome)
    → ((items : List RetrievedItem) (gold : List SourceLocation) → InUnit (f items gold))
    → InUnit (with_inputs c id t f)
unfolding with_inputs
with_inputs-InUnit c id t f h = elim (Bool-cases (has_gold_evidence c.gold_evidence)) [
  | inr bare ↦ rw (bare, with_inputs) tt
  | inl known ↦ elim (Option-cases (get_stage c id t)) [
    | inl missing ↦ rw (known, with_inputs) (rw (missing, with_inputs) tt)
    | inr (stage, found) ↦
        rw (known, with_inputs) (rw (found, with_inputs) (h stage.items c.gold_evidence))
  ]
]

-- Every value that Hit@K, Precision@K, Recall@K, MRR, R-Precision, F1@K, document recall and page
-- recall compute for a case lies between 0 and 1, for every choice of the stage, all retrieved items and all gold evidence, duplicates
-- included.
pub scores-InUnit :
    (c : MetricContext) (id : Option String) (t : Option RetrievalStageType) (k : ℕ)
    → InUnit (with_inputs c id t (hit_at_k k))
      × InUnit (with_inputs c id t (precision_at_k k))
      × InUnit (with_inputs c id t (recall_at_k k))
      × InUnit (with_inputs c id t mrr)
      × InUnit (with_inputs c id t r_precision)
      × InUnit (with_inputs c id t (f1_at_k k))
      × InUnit (with_inputs c id t (document_recall k))
      × InUnit (with_inputs c id t (page_recall k))
scores-InUnit c id t k = (
  with_inputs-InUnit c id t (hit_at_k k) (hit_at_k-InUnit k),
  with_inputs-InUnit c id t (precision_at_k k) (precision_at_k-InUnit k),
  with_inputs-InUnit c id t (recall_at_k k) (recall_at_k-InUnit k),
  with_inputs-InUnit c id t mrr mrr-InUnit,
  with_inputs-InUnit c id t r_precision r_precision-InUnit,
  with_inputs-InUnit c id t (f1_at_k k) (f1_at_k-InUnit k),
  with_inputs-InUnit c id t (document_recall k) (document_recall-InUnit k),
  with_inputs-InUnit c id t (page_recall k) (page_recall-InUnit k),
)
