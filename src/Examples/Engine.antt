-- ===== src/Examples/Engine.antt =====
-- A registry of two metrics, of which one raises (src/rag_eval/metrics/engine.py).
use rag_eval.Prelude.{ℕ, ◌≡◌, true, false, none, some, String, List, [], ◌∷◌, map, refl}
use rag_eval.Metrics.Registry.{
  MetricResult, Metric, raised, returned, computed, answer, Key, key_of, register, get,
}
use rag_eval.Metrics.Registry.Laws.{Registered, empty, registers}
use rag_eval.Metrics.Presence.{ContextView}
use rag_eval.Metrics.Engine.{ScoringConfig, Scope, score_case}
use rag_eval.Metrics.Engine.Scoring.{reported, Ours, stored_outcome}
use rag_eval.Metrics.Engine.Rows.{outcome_at}
use rag_eval.Metrics.Engine.Guarantees.{selection, score_case_complete}

abbrev result : MetricResult ℕ
result = record {
  metric_id = "length";
  metric_version = "1";
  status = computed;
  value = some 7;
  reason = none;
  case_id = none;
  run_id = none;
  metric_run_id = none;
}

abbrev measures : Metric ContextView ℕ
measures = record {
  definition = record { metric_id = "length"; version = "1"; requirements = answer ∷ [] };
  compute = λ c. returned result;
}

abbrev breaks : Metric ContextView ℕ
breaks = record {
  definition = record { metric_id = "broken"; version = "2"; requirements = [] };
  compute = λ c. raised "division by zero";
}

abbrev registry : List (Key × Metric ContextView ℕ)
registry = (key_of breaks, breaks) ∷ (key_of measures, measures) ∷ []

first_registered : register breaks [] ≡ some ((key_of breaks, breaks) ∷ [])
unfolding register get
first_registered = refl

both_registered : register measures ((key_of breaks, breaks) ∷ []) ≡ some registry
unfolding register get
both_registered = refl

registry-Registered : Registered registry
registry-Registered = registers measures (registers breaks empty first_registered) both_registered

abbrev config : ScoringConfig
config = record {
  is_explicit = false;
  selected_metrics = [];
  metric_versions = [];
  persist_unavailable = true;
  persist_failed = false;
  metric_run_id = none;
}

abbrev scope : Scope
scope = record { scope_case_id = "c1"; scope_run_id = "r1"; scope_case_execution_id = some "e1" }

abbrev answered : ContextView
answered = record {
  case = record {
    query_text = "why?";
    history_length = 0;
    reference = none;
    gold_count = 0;
    gold_group_count = 0;
    answerable_as = none;
    conversation_id = none;
    chunks = false;
    chunk_count = false;
    documents = false;
    perturbed = false;
  };
  observation = some (record {
    answer_text = some "because";
    stages = none;
    claim_count = none;
    assessment_count = none;
    action = none;
    confidence_count = 0;
    spans = none;
    used = none;
    embedded = none;
  });
  has_judge = false;
  has_run_metadata = false;
  has_paired_runs = false;
}

abbrev view : ContextView → ContextView
view c = c

-- A text that tells the results of this example apart.
abbrev format : String → String → String → String → String
format run metric case version = metric

score_case_complete_example :
    let out = score_case view format config scope registry answered [] in
    (out.0
      ≡ some (
          map (reported view format config scope answered) (selection view format config registry)))
    × Ours view format config scope answered out.1
    × ((id : String)
        → outcome_at id out.1
          ≡ stored_outcome view format config scope answered
              (reported view format config scope answered)
              id
              (outcome_at id [])
              (selection view format config registry))
score_case_complete_example =
    score_case_complete view format config scope registry answered [] registry-Registered refl
      (refl, (refl, tt)) tt
