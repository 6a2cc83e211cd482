-- ===== src/Metrics/Engine.antt =====
-- The metric engine: src/rag_eval/metrics/engine.py, with `persist_metric` of
-- src/rag_eval/db/test_repository.py.
--
-- Metrics are the registry's, over an opaque context of which `view` gives the parts that the engine
-- reads. The text of an id is made of its four parts by `format`. Reason texts are kept as far as
-- they tell the cases apart; details are left out. A result table is the list of its rows with
-- their primary keys.
pub mod Rows
pub mod Scoring
pub mod Guarantees
use rag_eval.Prelude.{
  Bool, true, false, not, ◌&&◌, ◌||◌, Option, none, some, is_some, String, List, [], ◌∷◌, ◌++◌, map,
  str_eq, keep, if◌then◌else◌,
}
use rag_eval.Metrics.Registry.{
  MetricRequirement, MetricStatus, computed, unavailable_missing_input, not_applicable, failed,
  MetricDefinition, MetricResult, Computation, raised, returned, Metric, Key, get, get_required,
  list_metrics,
}
use rag_eval.Metrics.Presence.{ContextView, requirement_satisfied}

-- `class ScoringConfig`; the mode is `explicit` or anything else.
pub record ScoringConfig : Type 0 where
  pub is_explicit : Bool
  pub selected_metrics : List String
  pub metric_versions : List (String × String)
  pub persist_unavailable : Bool
  pub persist_failed : Bool
  pub metric_run_id : Option String

-- `config.metric_versions.get(metric_id, "1")`
unfoldable pub version_of : List (String × String) → String → String
version_of [] id = "1"
version_of ((j, version) ∷ versions) id = if str_eq j id then version else version_of versions id

abbrev pub is_unavailable : MetricStatus → Bool
is_unavailable unavailable_missing_input = true
is_unavailable _ = false

abbrev pub is_failed : MetricStatus → Bool
is_failed failed = true
is_failed _ = false

-- Whether `_persist_result` goes on to write a result of that status.
unfoldable pub is_kept : ScoringConfig → MetricStatus → Bool
is_kept config status =
    not (is_unavailable status && not config.persist_unavailable)
    && not (is_failed status && not config.persist_failed)

-- `_check_requirements`: the requirements that are missing.
unfoldable pub missing_requirements : ContextView → List MetricRequirement → List MetricRequirement
missing_requirements c requirements = keep (λ r. not (requirement_satisfied r c)) requirements

-- `class MetricResultRecord`: a row of the result table.
pub record ResultRow (Value : Type 0) : Type 0 where
  pub metric_result_id : String
  pub run_id : String
  pub metric_run_id : Option String
  pub case_id : String
  pub case_execution_id : Option String
  pub metric_id : String
  pub metric_version : String
  pub status : MetricStatus
  pub value : Option Value

abbrev pub same_option : Option String → Option String → Bool
same_option none none = true
same_option (some a) (some b) = str_eq a b
same_option none (some b) = false
same_option (some a) none = false

-- The truth value of an optional text, and the text.
abbrev pub given : Option String → Option String
given none = none
given (some s) = if str_eq s "" then none else some s

module _ {Value : Type 0} where
  unfoldable pub find_row : String → List (ResultRow Value) → Option (ResultRow Value)
  find_row id [] = none
  find_row id (r ∷ rows) = if str_eq r.metric_result_id id then some r else find_row id rows

  unfoldable pub replace_row : ResultRow Value → List (ResultRow Value) → List (ResultRow Value)
  replace_row row [] = []
  replace_row row (r ∷ rows) =
      if str_eq r.metric_result_id row.metric_result_id
      then record row { metric_id = r.metric_id; metric_version = r.metric_version } ∷ rows
      else r ∷ replace_row row rows

  -- `persist_metric`; `none` is the ValueError.
  unfoldable pub persist_metric :
      ResultRow Value → List (ResultRow Value) → Option (List (ResultRow Value))
  persist_metric row rows =
      if str_eq row.run_id "" then none else elim (find_row row.metric_result_id rows) [
        | none ↦ some (rows ++ row ∷ [])
        | some existing ↦
            if str_eq existing.run_id row.run_id
              && same_option existing.metric_run_id row.metric_run_id
            then some (replace_row row rows)
            else none
      ]

-- Whether a result has a value or a reason (`validate_null_value_reason`).
abbrev pub is_explained : {Value : Type 0} → MetricResult Value → Bool
is_explained r = is_some r.value || is_some r.reason

-- What the engine passes on to the results of one case.
pub record Scope : Type 0 where
  pub scope_case_id : String
  pub scope_run_id : String
  pub scope_case_execution_id : Option String

module _ {Context Value : Type 0} (view : Context → ContextView)
    (format : String → String → String → String → String) where
  -- `_select_metrics`; `none` is the KeyError of `get_required`.
  unfoldable pub select_explicit :
      ScoringConfig → List (Key × Metric Context Value) → List String → List (Metric Context Value)
  select_explicit config registry [] = []
  select_explicit config registry (id ∷ ids) =
      let rest = select_explicit config registry ids in
      elim (get registry (id, version_of config.metric_versions id)) [
        | none ↦ rest
        | some m ↦ m ∷ rest
      ]

  unfoldable pub require_all :
      List (Key × Metric Context Value)
      → List MetricDefinition
      → Option (List (Metric Context Value))
  require_all registry [] = some []
  require_all registry (d ∷ ds) = elim (get_required registry d.metric_id d.version) [
    | none ↦ none
    | some m ↦ elim (require_all registry ds) [ none ↦ none | some ms ↦ some (m ∷ ms) ]
  ]

  unfoldable pub select_metrics :
      ScoringConfig → List (Key × Metric Context Value) → Option (List (Metric Context Value))
  select_metrics config registry =
      if config.is_explicit
      then some (select_explicit config registry config.selected_metrics)
      else require_all registry (list_metrics registry)

  -- A result with the ids of the case and the run.
  unfoldable pub stamped :
      ScoringConfig
      → Scope
      → String
      → String
      → MetricStatus
      → Option Value
      → Option String
      → MetricResult Value
  stamped config scope id version status value reason = record {
    metric_id = id;
    metric_version = version;
    status = status;
    value = value;
    reason = reason;
    case_id = some scope.scope_case_id;
    run_id = some scope.scope_run_id;
    metric_run_id = config.metric_run_id;
  }

  unfoldable pub after_compute :
      ScoringConfig → Scope → MetricDefinition → Computation Value → MetricResult Value
  after_compute config scope d (raised text) =
      stamped config scope d.metric_id d.version failed none (some text)
  after_compute config scope d (returned r) =
      stamped config scope r.metric_id r.metric_version r.status r.value r.reason

  -- `_execute_metric_safe`; `_is_applicable` is always true.
  unfoldable pub execute_metric_safe :
      ScoringConfig → Scope → Context → Metric Context Value → MetricResult Value
  unfolding after_compute
  execute_metric_safe config scope c m =
      elim (missing_requirements (view c) m.definition.requirements) [
        | [] ↦ after_compute config scope m.definition (m.compute c)
        | r ∷ rs ↦
            stamped config scope m.definition.metric_id m.definition.version
              unavailable_missing_input none (some "Missing requirements")
      ]

  -- The row of the canonical result that `_persist_result` makes of a result.
  unfoldable pub row_of : ScoringConfig → Scope → MetricResult Value → ResultRow Value
  row_of config scope r = record {
    metric_result_id =
        format (elim (given config.metric_run_id) [ none ↦ scope.scope_run_id | some id ↦ id ])
          r.metric_id scope.scope_case_id r.metric_version;
    run_id = scope.scope_run_id;
    metric_run_id = config.metric_run_id;
    case_id = scope.scope_case_id;
    case_execution_id = scope.scope_case_execution_id;
    metric_id = r.metric_id;
    metric_version = r.metric_version;
    status = r.status;
    value = r.value;
  }

  -- The canonical result of `_persist_result`; `none` is the ValueError for a null value without a
  -- reason, which nothing catches.
  unfoldable pub canonical_result :
      ScoringConfig → Scope → MetricResult Value → Option (ResultRow Value)
  canonical_result config scope r = if is_explained r then some (row_of config scope r) else none

  -- `_persist_result`
  unfoldable pub persist_result :
      ScoringConfig
      → Scope
      → MetricResult Value
      → List (ResultRow Value)
      → Option (List (ResultRow Value))
  persist_result config scope r rows =
      if is_kept config r.status
      then elim (canonical_result config scope r) [
        | none ↦ none
        | some row ↦ persist_metric row rows
      ]
      else some rows

  -- The loop of `score_case`: the results, or `none` where persisting one raises, and the table.
  unfoldable pub score_metrics :
      ScoringConfig
      → Scope
      → Context
      → List (Metric Context Value)
      → List (ResultRow Value)
      → Option (List (MetricResult Value)) × List (ResultRow Value)
  score_metrics config scope c [] rows = (some [], rows)
  score_metrics config scope c (m ∷ ms) rows =
      let result = execute_metric_safe config scope c m in
      elim (persist_result config scope result rows) [
        | none ↦ (none, rows)
        | some rows' ↦
            let rest = score_metrics config scope c ms rows' in
            (elim rest.0 [ none ↦ none | some results ↦ some (result ∷ results) ], rest.1)
      ]

  -- `score_case`
  unfoldable pub score_case :
      ScoringConfig
      → Scope
      → List (Key × Metric Context Value)
      → Context
      → List (ResultRow Value)
      → Option (List (MetricResult Value)) × List (ResultRow Value)
  score_case config scope registry c rows = elim (select_metrics config registry) [
    | none ↦ (none, rows)
    | some ms ↦ score_metrics config scope c ms rows
  ]
