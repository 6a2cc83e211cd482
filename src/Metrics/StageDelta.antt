-- ===== src/Metrics/StageDelta.antt =====
-- Comparisons of two named retrieval stages: src/rag_eval/metrics/stage_delta.py.
--
-- Modelled are the comparisons that read the stages' items themselves. The ids of an item are texts;
-- values, reasons and details are as in Metrics/Retrieval.
pub mod Laws
use rag_eval.Prelude.{
  ℕ, suc, Bool, true, false, ◌&&◌, Option, none, some, String, List, [], ◌∷◌, map, any, count_if,
  length, str_eq, not, if◌then◌else◌,
}
use rag_eval.Prelude.Int.{ℤ, pos, ◌-ℤ◌, neg}
use rag_eval.Metrics.Matching.{
  SourceLocation, RetrievedItem, SpanMatch, same_text, match_gold_evidence,
}
use rag_eval.Metrics.Retrieval.{
  MetricContext, has_gold_evidence, get_retrieval_stage_by_id, Outcome, unavailable, failed,
  computed, safe_divide, first_relevant_rank,
}
use rag_eval.Metrics.Retrieval.Staged.{distinct}

-- How a comparison of ranks ends: `missing` is UNAVAILABLE_MISSING_INPUT, `no_rank` a computed
-- result without a value.
pub data RankOutcome : Type 0 where
  missing no_rank : RankOutcome
  ranked : ℤ → RankOutcome

-- `_pair` and what its callers do with it: the items of the two stages, or the result for a missing
-- one.
unfoldable pub with_pair {ℓ} :
    {A : Type ℓ}
    → MetricContext
    → String
    → String
    → A
    → (List RetrievedItem → List RetrievedItem → A)
    → A
with_pair c before_id after_id bad f = elim (get_retrieval_stage_by_id c before_id) [
  | none ↦ bad
  | some before ↦ elim (get_retrieval_stage_by_id c after_id) [
    | none ↦ bad
    | some after ↦ f before.items after.items
  ]
]

-- The same with the check for gold evidence.
unfoldable pub with_gold_pair {ℓ} :
    {A : Type ℓ}
    → MetricContext
    → String
    → String
    → A
    → (List RetrievedItem → List RetrievedItem → A)
    → A
with_gold_pair c before_id after_id bad f =
    let found = with_pair c before_id after_id bad f in
    if has_gold_evidence c.gold_evidence then found else bad

-- `sum(a.matched and b.matched for a, b in zip(before, after, strict=True))`
unfoldable pub both_matched : List SpanMatch → List SpanMatch → ℕ
both_matched (a ∷ before) (b ∷ after) =
    let rest = both_matched before after in if a.matched && b.matched then suc rest else rest
both_matched _ _ = 0

retained : List SourceLocation → Option (List SpanMatch) → Option (List SpanMatch) → Outcome
retained gold (some before) (some after) =
    computed (safe_divide (both_matched before after) (length gold))
retained gold _ _ = failed

-- `GoldRetention.compute`
unfoldable pub gold_retention : MetricContext → String → String → Outcome
unfolding retained
gold_retention c before_id after_id =
    with_gold_pair c before_id after_id unavailable (λ before after.
      retained c.gold_evidence (match_gold_evidence c.gold_evidence before)
        (match_gold_evidence c.gold_evidence after))

-- `len(before_ids & after_ids) / len(before_ids)`
unfoldable pub retention {ℓ} : {A : Type ℓ} → (A → A → Bool) → List A → List A → Outcome
retention same before after = computed (
    safe_divide (count_if (λ x. any (same x) after) (distinct same before))
      (length (distinct same before)))

-- `ItemRetentionRate.compute`
unfoldable pub item_retention_rate : MetricContext → String → String → Outcome
item_retention_rate c before_id after_id =
    with_pair c before_id after_id unavailable (λ before after.
      retention str_eq (map (λ i. i.retrieval_id) before) (map (λ i. i.retrieval_id) after))

document_of : Option SourceLocation → Option String
document_of none = none
document_of (some src) = src.document_id

-- `source` in SourceRetentionRate.
unfoldable pub source_key : RetrievedItem → Option String
unfolding document_of
source_key i = document_of i.source

-- `SourceRetentionRate.compute`
unfoldable pub source_retention_rate : MetricContext → String → String → Outcome
source_retention_rate c before_id after_id =
    with_pair c before_id after_id unavailable
      (λ before after. retention same_text (map source_key before) (map source_key after))

unfoldable pub rank_change : Bool → Option ℕ → Option ℕ → RankOutcome
rank_change reverse (some b) (some a) =
    let value = pos b -ℤ pos a in ranked (if reverse then neg value else value)
rank_change reverse _ _ = no_rank

-- `_rank_delta`
unfoldable pub rank_delta : Bool → MetricContext → String → String → RankOutcome
rank_delta reverse c before_id after_id =
    with_gold_pair c before_id after_id missing (λ before after.
      rank_change reverse (first_relevant_rank c.gold_evidence 0 before)
        (first_relevant_rank c.gold_evidence 0 after))

-- `RankGain.compute` and `RankRegression.compute`
abbrev pub rank_gain : MetricContext → String → String → RankOutcome
rank_gain = rank_delta false

abbrev pub rank_regression : MetricContext → String → String → RankOutcome
rank_regression = rank_delta true
