-- ===== src/Metrics/Engine/Scoring.antt =====
-- What `score_case` of src/rag_eval/metrics/engine.py returns and keeps.
use rag_eval.Prelude.{
  ◌≡◌, Bool, true, false, ◌&&◌, not, any, Option, none, some, String, List, [], ◌∷◌, map, All,
  str_eq, refl, sym, ap, subst, ◌∙◌, arith, if◌then◌else◌, inl, inr, Bool-cases,
}
use rag_eval.Metrics.Registry.{
  MetricRequirement, MetricStatus, unavailable_missing_input, failed, MetricResult, Computation,
  raised, returned, Metric,
}
use rag_eval.Metrics.Presence.{ContextView, requirement_satisfied}
use rag_eval.Metrics.Engine.{
  ScoringConfig, Scope, ResultRow, given, is_kept, is_explained, row_of, canonical_result,
  persist_result, missing_requirements, stamped, after_compute, execute_metric_safe, score_metrics,
}
use rag_eval.Metrics.Engine.Rows.{Owned, outcome_at, persist_metric_writes}

module _ {Context Value : Type 0} (view : Context → ContextView)
    (format : String → String → String → String → String) (config : ScoringConfig) (scope : Scope)
    (c : Context) where
  -- What the engine gets from a metric.
  abbrev pub result_of : Metric Context Value → MetricResult Value
  result_of m = execute_metric_safe view format config scope c m

  -- What a metric is to report, by its definition and its computation alone: it is unavailable if
  -- a requirement is not satisfied; it failed, without a value, if its computation raises; else it has
  -- what its computation returns. The ids of the case, the run and the scoring pass are the engine's.
  abbrev pub reported : Metric Context Value → MetricResult Value
  reported m =
      let own : String → String → MetricStatus → Option Value → Option String → MetricResult Value =
        λ id version status value reason. record {
          metric_id = id;
          metric_version = version;
          status = status;
          value = value;
          reason = reason;
          case_id = some scope.scope_case_id;
          run_id = some scope.scope_run_id;
          metric_run_id = config.metric_run_id;
        } in
      if any (λ r. not (requirement_satisfied r (view c))) m.definition.requirements
      then own m.definition.metric_id m.definition.version unavailable_missing_input none
          (some "Missing requirements")
      else (elim (m.compute c) [
        | raised text ↦ own m.definition.metric_id m.definition.version failed none (some text)
        | returned r ↦ own r.metric_id r.metric_version r.status r.value r.reason
      ])

  -- The id of a result's row.
  abbrev pub id_of : MetricResult Value → String
  id_of r =
      format (elim (given config.metric_run_id) [ none ↦ scope.scope_run_id | some id ↦ id ])
        r.metric_id scope.scope_case_id r.metric_version

  -- What an id's row tells when the results of these metrics have been stored one after the other:
  -- the status and the value of the last one that is kept and has that id, else what it told before.
  abbrev pub stored_outcome :
      (Metric Context Value → MetricResult Value)
      → String
      → Option (MetricStatus × Option Value)
      → List (Metric Context Value)
      → Option (MetricStatus × Option Value)
  stored_outcome result id before [] = before
  stored_outcome result id before (m ∷ ms) =
      stored_outcome result id
        (if is_kept config (result m).status && str_eq (id_of (result m)) id
          then some ((result m).status, (result m).value)
          else before)
        ms

  abbrev pub Ours : List (ResultRow Value) → Type 0
  Ours = All (Owned scope.scope_run_id config.metric_run_id)

  -- A metric whose computation raises, or returns a value or a reason for having none.
  abbrev pub explains : Metric Context Value → Bool
  explains m = elim (m.compute c) [ raised text ↦ true | returned r ↦ is_explained r ]

  result_of-is_explained :
      (m : Metric Context Value) → explains m ≡ true → is_explained (result_of m) ≡ true
  unfolding execute_metric_safe after_compute stamped
  result_of-is_explained m h = by_missing (missing_requirements (view c) m.definition.requirements)
    where
      by_outcome :
          (o : Computation Value)
          → elim o [ raised text ↦ true | returned r ↦ is_explained r ] ≡ true
          → is_explained (after_compute view format config scope m.definition o) ≡ true
      by_outcome (raised text) e = ground arith
      by_outcome (returned r) e = e

      by_missing :
          (rs : List MetricRequirement)
          → is_explained (elim rs [
            | [] ↦ after_compute view format config scope m.definition (m.compute c)
            | r ∷ later ↦
                stamped view format config scope m.definition.metric_id m.definition.version
                  unavailable_missing_input none
                  (some "Missing requirements")
          ])
            ≡ true
      by_missing [] = by_outcome (m.compute c) h
      by_missing (r ∷ later) = ground arith

  -- What persisting one result does.
  Written : Metric Context Value → List (ResultRow Value) → List (ResultRow Value) → Type 0
  Written m rows rows' =
      (persist_result view format config scope (result_of m) rows ≡ some rows')
      × Ours rows'
      × ((id : String)
          → outcome_at id rows' ≡ (
              if is_kept config (result_of m).status && str_eq (id_of (result_of m)) id
              then some ((result_of m).status, (result_of m).value)
              else outcome_at id rows))

  persist_result_writes :
      (m : Metric Context Value) (rows : List (ResultRow Value))
      → str_eq scope.scope_run_id "" ≡ false
      → explains m ≡ true
      → Ours rows
      → (rows' : List (ResultRow Value)) × Written m rows rows'
  unfolding Written persist_result canonical_result row_of
  persist_result_writes m rows named told ours =
      elim (Bool-cases (is_kept config (result_of m).status)) [
        | inr skipped ↦
            (rows, (rw (skipped, persist_result) refl, ours, λ id. ground (arith, skipped)))
        | inl kept ↦
            let full : is_explained (result_of m) ≡ true = result_of-is_explained m told in
            let (rows', e, ours', ids) =
              persist_metric_writes scope.scope_run_id config.metric_run_id
                (row_of view format config scope (result_of m)) rows named (refl, refl) ours in
            (
              rows',
              (
                rw (kept, persist_result) (rw (full, canonical_result) e),
                ours',
                λ id. ground (arith, kept, ids id),
              ),
            )
      ]

  -- What the loop over the metrics does.
  unfoldable pub Scored :
      List (Metric Context Value)
      → List (ResultRow Value)
      → Option (List (MetricResult Value)) × List (ResultRow Value)
      → Type 0
  Scored ms rows out =
      (out.0 ≡ some (map result_of ms))
      × Ours out.1
      × ((id : String) → outcome_at id out.1 ≡ stored_outcome result_of id (outcome_at id rows) ms)

  pub score_metrics-Scored :
      (ms : List (Metric Context Value)) (rows : List (ResultRow Value))
      → str_eq scope.scope_run_id "" ≡ false
      → All (λ m. explains m ≡ true) ms
      → Ours rows
      → Scored ms rows (score_metrics view format config scope c ms rows)
  unfolding Scored score_metrics Written
  score_metrics-Scored [] rows named told ours = (refl, ours, λ id. refl)
  score_metrics-Scored (m ∷ ms) rows named told ours =
      let (rows₁, written) = persist_result_writes m rows named told.0 ours in
      let (e, ours₁, here) = written in
      let (results, ours₂, later) = score_metrics-Scored ms rows₁ named told.1 ours₁ in
      let rest : Option (List (MetricResult Value)) × List (ResultRow Value) =
        score_metrics view format config scope c ms rows₁ in
      let step : score_metrics view format config scope c (m ∷ ms) rows
          ≡ (elim rest.0 [ none ↦ none | some rs ↦ some (result_of m ∷ rs) ], rest.1) =
        rw (e, score_metrics) refl in
      subst (Scored (m ∷ ms) rows) (sym step) (
        rw results refl,
        ours₂,
        λ id. later id ∙ ap (λ before. stored_outcome result_of id before ms) (here id),
      )
