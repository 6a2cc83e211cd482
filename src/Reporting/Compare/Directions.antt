-- ===== src/Reporting/Compare/Directions.antt =====
-- Which values of a metric are better: `_METRIC_DIRECTIONS` of src/rag_eval/reporting/compare.py.
use rag_eval.Prelude.{none, some, String, List, [], ◌∷◌, str_eq}
use rag_eval.Prelude.Dict.{lookup}

-- `direction` of a comparison.
pub data Direction : Type 0 where
  higher_is_better lower_is_better unknown : Direction

-- `_METRIC_DIRECTIONS`
abbrev pub metric_directions : List (String × Direction)
metric_directions =
    ("answer.exact_match", higher_is_better)
    ∷ ("answer.normalized_exact_match", higher_is_better)
    ∷ ("answer.token_precision", higher_is_better)
    ∷ ("answer.token_recall", higher_is_better)
    ∷ ("answer.token_f1", higher_is_better)
    ∷ ("retrieval.hit_at_k", higher_is_better)
    ∷ ("retrieval.precision_at_k", higher_is_better)
    ∷ ("retrieval.recall_at_k", higher_is_better)
    ∷ ("retrieval.mrr", higher_is_better)
    ∷ ("retrieval.map_at_k", higher_is_better)
    ∷ ("retrieval.ndcg_at_k", higher_is_better)
    ∷ ("retrieval.r_precision", higher_is_better)
    ∷ ("retrieval.f1_at_k", higher_is_better)
    ∷ ("retrieval.first_relevant_rank", lower_is_better)
    ∷ ("retrieval.document_recall", higher_is_better)
    ∷ ("retrieval.page_recall", higher_is_better)
    ∷ ("citation.resolution", higher_is_better)
    ∷ ("citation.resolution_rate", higher_is_better)
    ∷ ("citation.attribution_rate", higher_is_better)
    ∷ ("citation.broken", lower_is_better)
    ∷ ("citation.broken_rate", lower_is_better)
    ∷ ("citation.claim_coverage", higher_is_better)
    ∷ ("citation.document_attribution_accuracy", higher_is_better)
    ∷ ("citation.page_attribution_accuracy", higher_is_better)
    ∷ ("citation.mean_citations_per_claim", higher_is_better)
    ∷ ("citation.uncited_claim_rate", lower_is_better)
    ∷ ("citation.evidence_utilization", higher_is_better)
    ∷ ("performance.total_latency_ms", lower_is_better)
    ∷ ("performance.retrieval_latency_ms", lower_is_better)
    ∷ ("performance.generation_latency_ms", lower_is_better)
    ∷ ("performance.e2e_latency_ms", lower_is_better)
    ∷ ("performance.embedding_latency_ms", lower_is_better)
    ∷ ("performance.context_construction_latency_ms", lower_is_better)
    ∷ ("performance.assessment_latency_ms", lower_is_better)
    ∷ ("performance.stage_latency_ms", lower_is_better)
    ∷ ("performance.stage_latency_share", lower_is_better)
    ∷ ("performance.stage_throughput", higher_is_better)
    ∷ ("performance.component_failure_rate", lower_is_better)
    ∷ ("performance.tokens_per_second", higher_is_better)
    ∷ ("usage.total_tokens", lower_is_better)
    ∷ ("usage.input_tokens", lower_is_better)
    ∷ ("usage.output_tokens", lower_is_better)
    ∷ ("usage.context_tokens", lower_is_better)
    ∷ ("usage.tokens_per_correct_answer", lower_is_better)
    ∷ ("usage.relevant_evidence_per_context_token", higher_is_better)
    ∷ ("usage.llm_calls", lower_is_better)
    ∷ ("usage.embedding_calls", lower_is_better)
    ∷ ("usage.retrieval_calls", lower_is_better)
    ∷ ("usage.reranker_calls", lower_is_better)
    ∷ ("cost.total", lower_is_better)
    ∷ ("cost.per_token", lower_is_better)
    ∷ ("reliability.success_rate", higher_is_better)
    ∷ ("reliability.availability", higher_is_better)
    ∷ ("reliability.error_rate", lower_is_better)
    ∷ ("reliability.latency_p50", lower_is_better)
    ∷ ("reliability.latency_p99", lower_is_better)
    ∷ ("decision.accept_rate", higher_is_better)
    ∷ ("decision.reject_rate", higher_is_better)
    ∷ ("decision.abstention_rate", higher_is_better)
    ∷ ("decision.answerability_accuracy", higher_is_better)
    ∷ ("decision.false_answer_rate", lower_is_better)
    ∷ ("decision.false_abstention_rate", lower_is_better)
    ∷ ("decision.abstention_precision", higher_is_better)
    ∷ ("decision.abstention_recall", higher_is_better)
    ∷ []

-- `_METRIC_DIRECTIONS.get(metric_id, "unknown")`
unfoldable pub direction_of : String → Direction
unfolding lookup
direction_of metric_id = elim (lookup str_eq metric_id metric_directions) [
  | none ↦ unknown
  | some d ↦ d
]
