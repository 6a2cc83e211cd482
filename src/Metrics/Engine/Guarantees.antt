-- ===== src/Metrics/Engine/Guarantees.antt =====
-- The promises of `score_case` of src/rag_eval/metrics/engine.py.
use rag_eval.Prelude.{
  ◌≡◌, Bool, true, false, not, Option, none, some, String, List, [], ◌∷◌, map, keep, any, All,
  str_eq, refl, subst, ◌∙◌, arith, if◌then◌else◌, inl, inr, Bool-cases,
}
use rag_eval.Metrics.Registry.{
  MetricRequirement, unavailable_missing_input, failed, MetricResult, Computation, raised, returned,
  Metric, Key, get, get_required, list_metrics, key_of,
}
use rag_eval.Metrics.Registry.Laws.{Registered, Finds, Registered-Finds}
use rag_eval.Metrics.Presence.{ContextView, requirement_satisfied}
use rag_eval.Metrics.Engine.{
  ScoringConfig, Scope, ResultRow, missing_requirements, execute_metric_safe, after_compute,
  score_metrics, score_case, select_metrics, select_explicit, require_all, stamped,
}
use rag_eval.Metrics.Engine.Scoring.{
  result_of, reported, Ours, explains, stored_outcome, Scored, score_metrics-Scored,
}
use rag_eval.Metrics.Engine.Rows.{outcome_at}

keep_none {ℓ} : {A : Type ℓ} (p : A → Bool) (xs : List A) → any p xs ≡ false → keep p xs ≡ []
keep_none p [] h = refl
keep_none p (x ∷ xs) h = ground (arith, keep_none p xs)

keep_some {ℓ} :
    {A : Type ℓ} (p : A → Bool) (xs : List A)
    → any p xs ≡ true
    → (y : A) × (ys : List A) × (keep p xs ≡ y ∷ ys)
keep_some p [] h = absurd (ground arith)
keep_some p (x ∷ xs) h = elim (Bool-cases (p x)) [
  | inl t ↦ (x, keep p xs, ground arith)
  | inr t ↦ let (y, ys, e) = keep_some p xs (ground (arith, t, h)) in (y, ys, ground (arith, t, e))
]

module _ {Context Value : Type 0} (view : Context → ContextView)
    (format : String → String → String → String → String) where
  require_all-Finds :
      (registry entries : List (Key × Metric Context Value))
      → All (Finds registry) entries
      → require_all view format registry (list_metrics entries)
        ≡ some (map (λ (e : Key × Metric Context Value). e.1) entries)
  unfolding require_all list_metrics get_required
  require_all-Finds registry [] h = refl
  require_all-Finds registry (e ∷ entries) h =
      let found : get registry (key_of e.1) ≡ some e.1 = h.0 in
      let rest = require_all-Finds registry entries h.1 in
      rw (found, require_all) (rw (rest, require_all) refl)

  -- The metrics that a configuration selects: in the explicit mode those of the selected ids that
  -- are registered, else all that are registered.
  abbrev pub selection :
      ScoringConfig → List (Key × Metric Context Value) → List (Metric Context Value)
  selection config registry =
      if config.is_explicit
      then select_explicit view format config registry config.selected_metrics
      else map (λ e. e.1) registry

  -- The selection of metrics never raises on a registry that registrations have built: it is what
  -- the configuration names, and in the mode `all_available` every registered metric, in the order
  -- of registration.
  pub select_metrics_total :
      (config : ScoringConfig) (registry : List (Key × Metric Context Value))
      → Registered registry
      → select_metrics view format config registry ≡ some (selection config registry)
  unfolding select_metrics
  select_metrics_total config registry r = elim (Bool-cases config.is_explicit) [
    | inl t ↦ rw t refl
    | inr t ↦ rw t (require_all-Finds registry registry (Registered-Finds r))
  ]

  chosen_score_case :
      (config : ScoringConfig) (scope : Scope) (registry : List (Key × Metric Context Value))
      (c : Context) (rows : List (ResultRow Value))
      → Registered registry
      → score_metrics view format config scope c (selection config registry) rows
        ≡ score_case view format config scope registry c rows
  unfolding score_case
  chosen_score_case config scope registry c rows r =
      let chosen = select_metrics_total config registry r in rw (chosen, score_case) refl

  score_case-Scored :
      (config : ScoringConfig) (scope : Scope) (registry : List (Key × Metric Context Value))
      (c : Context) (rows : List (ResultRow Value))
      → Registered registry
      → str_eq scope.scope_run_id "" ≡ false
      → All (λ m. explains view format config scope c m ≡ true) (selection config registry)
      → Ours view format config scope c rows
      → Scored view format config scope c
          (selection config registry)
          rows
          (score_case view format config scope registry c rows)
  score_case-Scored config scope registry c rows r named told ours =
      subst (Scored view format config scope c (selection config registry) rows)
        (chosen_score_case config scope registry c rows r)
        (score_metrics-Scored view format config scope c (selection config registry) rows named told
          ours)

  missing_result :
      (config : ScoringConfig) (scope : Scope) (c : Context) (m : Metric Context Value)
      → any (λ r. not (requirement_satisfied r (view c))) m.definition.requirements ≡ true
      → result_of view format config scope c m
        ≡ stamped view format config scope m.definition.metric_id m.definition.version
            unavailable_missing_input none
            (some "Missing requirements")
  unfolding execute_metric_safe missing_requirements
  missing_result config scope c m h =
      let (r, rs, e) =
        keep_some (λ (r : MetricRequirement). not (requirement_satisfied r (view c)))
          m.definition.requirements h in
      rw (e, execute_metric_safe) refl

  computed_result :
      (config : ScoringConfig) (scope : Scope) (c : Context) (m : Metric Context Value)
      → any (λ r. not (requirement_satisfied r (view c))) m.definition.requirements ≡ false
      → result_of view format config scope c m
        ≡ after_compute view format config scope m.definition (m.compute c)
  unfolding execute_metric_safe missing_requirements
  computed_result config scope c m h =
      let e =
        keep_none (λ (r : MetricRequirement). not (requirement_satisfied r (view c)))
          m.definition.requirements h in
      rw (e, execute_metric_safe) refl

  result_of-reported :
      (config : ScoringConfig) (scope : Scope) (c : Context) (m : Metric Context Value)
      → result_of view format config scope c m ≡ reported view format config scope c m
  unfolding after_compute stamped
  result_of-reported config scope c m =
      elim (Bool-cases
        (any (λ r. not (requirement_satisfied r (view c))) m.definition.requirements)) [
          | inl missing ↦ rw missing (missing_result config scope c m missing)
          | inr all ↦ rw all (computed_result config scope c m all ∙ by_outcome (m.compute c))
        ]
    where
      by_outcome :
          (o : Computation Value)
          → after_compute view format config scope m.definition o ≡ elim o [
            | raised text ↦
                stamped view format config scope m.definition.metric_id m.definition.version failed
                  none
                  (some text)
            | returned r ↦
                stamped view format config scope r.metric_id r.metric_version r.status r.value
                  r.reason
          ]
      by_outcome (raised text) = refl
      by_outcome (returned r) = refl

  -- Scoring a case, for a run with an id and a table that holds only rows of the same run and scoring
  -- pass, where every selected metric raises, or returns a value or a reason for having none: it
  -- returns one result for every selected metric, in the order of the selection, whatever the others
  -- do. A metric is unavailable if a requirement of its definition is not satisfied, failed without a
  -- value if its computation raises, and has what its computation returns otherwise. Afterwards a
  -- result id tells the status and the value of the last selected metric with that id whose result the
  -- configuration keeps, and what it told before where there is none; the table holds only rows of the
  -- run and the pass.
  pub score_case_complete :
      (config : ScoringConfig) (scope : Scope) (registry : List (Key × Metric Context Value))
      (c : Context) (rows : List (ResultRow Value))
      → Registered registry
      → str_eq scope.scope_run_id "" ≡ false
      → All (λ m. explains view format config scope c m ≡ true) (selection config registry)
      → Ours view format config scope c rows
      → let out = score_case view format config scope registry c rows in
        (out.0 ≡ some (map (reported view format config scope c) (selection config registry)))
        × Ours view format config scope c out.1
        × ((id : String)
            → outcome_at id out.1
              ≡ stored_outcome view format config scope c
                  (reported view format config scope c)
                  id
                  (outcome_at id rows)
                  (selection config registry))
  unfolding Scored
  score_case_complete config scope registry c rows r named told ours =
      let chosen = selection config registry in
      let out : Option (List (MetricResult Value)) × List (ResultRow Value) =
        score_case view format config scope registry c rows in
      subst
        (λ (f : Metric Context Value → MetricResult Value).
          (out.0 ≡ some (map f chosen))
          × Ours view format config scope c out.1
          × ((id : String)
              → outcome_at id out.1
                ≡ stored_outcome view format config scope c f id (outcome_at id rows) chosen))
        (λ i m. result_of-reported config scope c m i)
        (score_case-Scored config scope registry c rows r named told ours)
