-- ===== src/Metrics/Registry.antt =====
-- The registry of metrics: src/rag_eval/metrics/registry.py, with the metric's interface of
-- src/rag_eval/metrics/base.py.
--
-- The dict is the list of its entries, in the order of insertion. What a metric computes from, and
-- the values that it computes, are opaque types. Of a definition the identity and the requirements
-- are kept.
pub mod Laws
use rag_eval.Prelude.{
  ℕ, Bool, true, false, ◌&&◌, Option, none, some, is_some, String, List, [], ◌∷◌, ◌++◌, map, str_eq,
  any, keep, length, if◌then◌else◌,
}

-- `class MetricRequirement`
pub data MetricRequirement : Type 0 where
  query history reference_answer gold_evidence answerability : MetricRequirement
  answer retrieval final_context citations confidence trace usage claims : MetricRequirement
  assessments decision stage_pairs component_trace usage_input usage_output : MetricRequirement
  usage_context usage_llm_calls usage_embedding_calls usage_retrieval_calls : MetricRequirement
  usage_reranker_calls stage_by_id stage_by_type gold_evidence_groups : MetricRequirement
  embedding_metadata embedding_vectors chunk_inventory source_documents : MetricRequirement
  ingestion conversation perturbation_pair paired_runs judge run_metadata : MetricRequirement

-- `class MetricStatus`
pub data MetricStatus : Type 0 where
  computed unavailable_missing_input not_applicable failed skipped : MetricStatus

-- `class MetricDefinition`
pub record MetricDefinition : Type 0 where
  pub metric_id : String
  pub version : String
  pub requirements : List MetricRequirement

-- `class MetricResult`
pub record MetricResult (Value : Type 0) : Type 0 where
  pub metric_id : String
  pub metric_version : String
  pub status : MetricStatus
  pub value : Option Value
  pub reason : Option String
  pub case_id : Option String
  pub run_id : Option String
  pub metric_run_id : Option String

-- How `compute` ends: it raises an exception with a text, or returns a result.
pub data Computation (Value : Type 0) : Type 0 where
  raised : String → Computation Value
  returned : MetricResult Value → Computation Value

-- `class Metric`. The context of `compute` has all that the metric asks, also the judge's answers of
-- that scoring: another scoring, with other answers, has another context.
pub record Metric (Context Value : Type 0) : Type 0 where
  pub definition : MetricDefinition
  pub compute : Context → Computation Value

abbrev pub Key : Type 0
Key = String × String

abbrev pub same_key : Key → Key → Bool
same_key a b = str_eq a.0 b.0 && str_eq a.1 b.1

module _ {Context Value : Type 0} where
  -- `dict.get`
  unfoldable pub get : List (Key × Metric Context Value) → Key → Option (Metric Context Value)
  get [] k = none
  get ((j, m) ∷ entries) k = if same_key j k then some m else get entries k

  abbrev pub key_of : Metric Context Value → Key
  key_of m = (m.definition.metric_id, m.definition.version)

  -- `register`; `none` is the ValueError.
  unfoldable pub register :
      Metric Context Value
      → List (Key × Metric Context Value)
      → Option (List (Key × Metric Context Value))
  register m registry =
      if is_some (get registry (key_of m)) then none else some (registry ++ (key_of m, m) ∷ [])

  -- `get_required`; `none` is the KeyError.
  unfoldable pub get_required :
      List (Key × Metric Context Value) → String → String → Option (Metric Context Value)
  get_required registry id version = get registry (id, version)

  -- `list_metrics`
  unfoldable pub list_metrics : List (Key × Metric Context Value) → List MetricDefinition
  list_metrics registry = map (λ e. e.1.definition) registry

  -- `get_versions`, before it is sorted.
  unfoldable pub get_versions : List (Key × Metric Context Value) → String → List String
  get_versions registry id = map (λ e. e.0.1) (keep (λ e. str_eq e.0.0 id) registry)

  -- `__contains__`
  unfoldable pub contains : List (Key × Metric Context Value) → String → Bool
  contains registry id = any (λ e. str_eq e.0.0 id) registry
