-- ===== src/Metrics/Presence.antt =====
-- What data a case has for its metrics: the `has_...` methods of src/rag_eval/metrics/context.py, and
-- `_requirement_satisfied` of src/rag_eval/metrics/engine.py, which asks them.
--
-- Of the benchmark case, the observation and the run, the parts that these tests read are kept. A
-- list stands by its length where only its length is read, and an entry of a free-form metadata
-- dict by its truth value.
use rag_eval.Prelude.{
  ℕ, Bool, true, false, not, ◌&&◌, ◌||◌, Option, none, some, is_some, String, List, [], str_eq, any,
  ltb,
}
use rag_eval.Metrics.Registry.{
  MetricRequirement, query, history, reference_answer, gold_evidence, answerability, answer,
  retrieval, final_context, citations, confidence, trace, usage, claims, assessments, decision,
  stage_pairs, component_trace, usage_input, usage_output, usage_context, usage_llm_calls,
  usage_embedding_calls, usage_retrieval_calls, usage_reranker_calls, stage_by_id, stage_by_type,
  gold_evidence_groups, embedding_metadata, embedding_vectors, chunk_inventory, source_documents,
  ingestion, conversation, perturbation_pair, paired_runs, judge, run_metadata,
}
use rag_eval.Metrics.Retrieval.{RetrievalStageType, same_type}

-- `class Answerability`
pub data Answerability : Type 0 where
  answerable unanswerable ambiguous unknown : Answerability

-- `class DecisionAction`
pub data DecisionAction : Type 0 where
  accept reject abstain undecided : DecisionAction

pub record CaseView : Type 0 where
  pub query_text : String
  pub history_length : ℕ
  pub reference : Option String
  pub gold_count : ℕ
  pub gold_group_count : ℕ
  pub answerable_as : Option Answerability
  pub conversation_id : Option String
  pub chunks : Bool
  pub chunk_count : Bool
  pub documents : Bool
  pub perturbed : Bool

pub record StageView : Type 0 where
  pub stage_kind : RetrievalStageType
  pub parent_count : ℕ
  pub embedding : Bool

pub record UsageView : Type 0 where
  pub input_tokens : Option ℕ
  pub output_tokens : Option ℕ
  pub context_tokens : Option ℕ
  pub llm_calls : Option ℕ
  pub embedding_calls : Option ℕ
  pub retrieval_calls : Option ℕ
  pub reranker_calls : Option ℕ
  pub ingested : Bool

-- Inline vectors, by their number, and whether an artifact has them.
pub record VectorsView : Type 0 where
  pub vectors : ℕ
  pub artifact : Bool

-- The spans of a trace stand by whether they are named.
pub record ObservationView : Type 0 where
  pub answer_text : Option String
  pub stages : Option (List StageView)
  pub claim_count : Option ℕ
  pub assessment_count : Option ℕ
  pub action : Option DecisionAction
  pub confidence_count : ℕ
  pub spans : Option (List Bool)
  pub used : Option UsageView
  pub embedded : Option VectorsView

pub record ContextView : Type 0 where
  pub case : CaseView
  pub observation : Option ObservationView
  pub has_judge : Bool
  pub has_run_metadata : Bool
  pub has_paired_runs : Bool

-- `observation is not None and ...`
abbrev pub observed : ContextView → (ObservationView → Bool) → Bool
observed c p = elim c.observation [ none ↦ false | some o ↦ p o ]

-- `has_answer`, and `has_citations`, which asks the same.
unfoldable pub has_answer : ContextView → Bool
has_answer c = observed c (λ o. is_some o.answer_text)

unfoldable pub has_retrieval : ContextView → Bool
has_retrieval c = observed c (λ o. is_some o.stages)

unfoldable pub has_claims : ContextView → Bool
has_claims c = observed c (λ o. is_some o.claim_count)

unfoldable pub has_assessments : ContextView → Bool
has_assessments c = observed c (λ o. is_some o.assessment_count)

unfoldable pub has_decision : ContextView → Bool
has_decision c = observed c (λ o. is_some o.action)

unfoldable pub has_confidence : ContextView → Bool
has_confidence c = observed c (λ o. ltb 0 o.confidence_count)

unfoldable pub has_trace : ContextView → Bool
has_trace c = observed c (λ o. is_some o.spans)

abbrev pub or_empty {ℓ} : {A : Type ℓ} → Option (List A) → List A
or_empty none = []
or_empty (some xs) = xs

unfoldable pub has_component_trace : ContextView → Bool
has_component_trace c = has_trace c && observed c (λ o. any (λ named. named) (or_empty o.spans))

-- `list_stages` without a type
unfoldable pub list_stages : ContextView → List StageView
list_stages c = elim c.observation [ none ↦ [] | some o ↦ or_empty o.stages ]

-- `has_usage() and usage.<field> is not None`, for a field.
unfoldable pub has_usage : ContextView → (UsageView → Bool) → Bool
has_usage c p = observed c (λ o. elim o.used [ none ↦ false | some u ↦ p u ])

unfoldable pub has_embedding_metadata : ContextView → Bool
has_embedding_metadata c =
    observed c
      (λ o. is_some o.embedded || (is_some o.stages && any (λ s. s.embedding) (list_stages c)))

unfoldable pub has_embedding_vectors : ContextView → Bool
has_embedding_vectors c =
    observed c (λ o. elim o.embedded [ none ↦ false | some v ↦ ltb 0 v.vectors || v.artifact ])

-- `_requirement_satisfied`
unfoldable pub requirement_satisfied : MetricRequirement → ContextView → Bool
requirement_satisfied query c = not (str_eq c.case.query_text "")
requirement_satisfied history c = ltb 0 c.case.history_length
requirement_satisfied reference_answer c = is_some c.case.reference
requirement_satisfied gold_evidence c = ltb 0 c.case.gold_count
requirement_satisfied answerability c = is_some c.case.answerable_as
requirement_satisfied answer c = has_answer c
requirement_satisfied retrieval c = has_retrieval c
requirement_satisfied final_context c =
    any (λ s. same_type s.stage_kind RetrievalStageType.final_context) (list_stages c)
requirement_satisfied citations c = has_answer c
requirement_satisfied claims c = has_claims c
requirement_satisfied assessments c = has_assessments c
requirement_satisfied decision c = has_decision c
requirement_satisfied confidence c = has_confidence c
requirement_satisfied trace c = has_trace c
requirement_satisfied usage c = has_usage c (λ u. true)
requirement_satisfied usage_input c = has_usage c (λ u. is_some u.input_tokens)
requirement_satisfied usage_output c = has_usage c (λ u. is_some u.output_tokens)
requirement_satisfied usage_context c = has_usage c (λ u. is_some u.context_tokens)
requirement_satisfied usage_llm_calls c = has_usage c (λ u. is_some u.llm_calls)
requirement_satisfied usage_embedding_calls c = has_usage c (λ u. is_some u.embedding_calls)
requirement_satisfied usage_retrieval_calls c = has_usage c (λ u. is_some u.retrieval_calls)
requirement_satisfied usage_reranker_calls c = has_usage c (λ u. is_some u.reranker_calls)
requirement_satisfied component_trace c = has_component_trace c
requirement_satisfied gold_evidence_groups c = ltb 0 c.case.gold_group_count
requirement_satisfied embedding_metadata c = has_embedding_metadata c
requirement_satisfied embedding_vectors c = has_embedding_vectors c
requirement_satisfied chunk_inventory c = c.case.chunks || c.case.chunk_count
requirement_satisfied source_documents c = c.case.documents || ltb 0 c.case.gold_count
requirement_satisfied ingestion c = has_usage c (λ u. u.ingested)
requirement_satisfied conversation c = is_some c.case.conversation_id
requirement_satisfied perturbation_pair c = c.case.perturbed
requirement_satisfied paired_runs c = c.has_paired_runs
requirement_satisfied stage_by_id c = has_retrieval c
requirement_satisfied stage_by_type c = has_retrieval c
requirement_satisfied stage_pairs c = any (λ s. ltb 0 s.parent_count) (list_stages c)
requirement_satisfied judge c = c.has_judge
requirement_satisfied run_metadata c = c.has_run_metadata
