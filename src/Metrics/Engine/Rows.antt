-- ===== src/Metrics/Engine/Rows.antt =====
-- The result table that `persist_metric` of src/rag_eval/db/test_repository.py writes.
use rag_eval.Prelude.{
  ◌≡◌, true, false, Option, none, some, is_some, String, List, [], ◌∷◌, ◌++◌, All, str_eq, eq_iff,
  refl, sym, ap, ◌∙◌, arith, if◌then◌else◌, inl, inr, Bool-cases, Option-cases,
}
use rag_eval.Metrics.Registry.{MetricStatus}
use rag_eval.Metrics.Engine.{ResultRow, same_option, find_row, replace_row, persist_metric}

pub same_option_refl : (a : Option String) → same_option a a ≡ true
same_option_refl none = refl
same_option_refl (some a) = (eq_iff a a).1 refl

module _ {Value : Type 0} where
  -- A row of one run and one scoring pass.
  abbrev pub Owned : String → Option String → ResultRow Value → Type 0
  Owned run pass r = (r.run_id ≡ run) × (r.metric_run_id ≡ pass)

  -- The status and the value of a row.
  abbrev pub outcome_of : Option (ResultRow Value) → Option (MetricStatus × Option Value)
  outcome_of none = none
  outcome_of (some row) = some (row.status, row.value)

  -- What an id's row tells.
  abbrev pub outcome_at : String → List (ResultRow Value) → Option (MetricStatus × Option Value)
  outcome_at id rows = outcome_of (find_row id rows)

  find_row-Owned :
      (run : String) (pass : Option String) (id : String) (rows : List (ResultRow Value))
      (r : ResultRow Value)
      → All (Owned run pass) rows
      → find_row id rows ≡ some r
      → Owned run pass r
  unfolding find_row
  find_row-Owned run pass id [] r h e = absurd (ground arith)
  find_row-Owned run pass id (x ∷ rows) r h e = elim (Bool-cases (str_eq x.metric_result_id id)) [
    | inl t ↦ ground arith
    | inr t ↦ find_row-Owned run pass id rows r h.1 (ground arith)
  ]

  outcome-append :
      (id : String) (rows : List (ResultRow Value)) (row : ResultRow Value)
      → find_row row.metric_result_id rows ≡ none
      → outcome_at id (rows ++ row ∷ []) ≡ (
          if str_eq row.metric_result_id id
          then some (row.status, row.value)
          else outcome_at id rows)
  unfolding find_row
  outcome-append id [] row h = ground arith
  outcome-append id (r ∷ rows) row h = ground (
    arith,
    outcome-append id rows row,
    eq_iff r.metric_result_id id,
    eq_iff row.metric_result_id id,
    eq_iff r.metric_result_id row.metric_result_id,
  )

  outcome-replace :
      (id : String) (rows : List (ResultRow Value)) (row : ResultRow Value)
      → is_some (find_row row.metric_result_id rows) ≡ true
      → outcome_at id (replace_row row rows) ≡ (
          if str_eq row.metric_result_id id
          then some (row.status, row.value)
          else outcome_at id rows)
  unfolding find_row replace_row
  outcome-replace id [] row h = absurd (ground arith)
  outcome-replace id (r ∷ rows) row h =
      elim (Bool-cases (str_eq r.metric_result_id row.metric_result_id)) [
        | inl t ↦
            let e : r.metric_result_id ≡ row.metric_result_id =
              (eq_iff r.metric_result_id row.metric_result_id).0 t in
            let same : str_eq r.metric_result_id id ≡ str_eq row.metric_result_id id =
              ap (λ s. str_eq s id) e in
            ground (arith, same)
        | inr t ↦ ground (
          arith,
          outcome-replace id rows row,
          eq_iff r.metric_result_id id,
          eq_iff row.metric_result_id id,
          eq_iff r.metric_result_id row.metric_result_id,
        )
      ]

  Owned-append :
      (run : String) (pass : Option String) (rows : List (ResultRow Value)) (row : ResultRow Value)
      → All (Owned run pass) rows
      → Owned run pass row
      → All (Owned run pass) (rows ++ row ∷ [])
  Owned-append run pass [] row h o = (o, tt)
  Owned-append run pass (r ∷ rows) row h o = (h.0, Owned-append run pass rows row h.1 o)

  Owned-replace :
      (run : String) (pass : Option String) (rows : List (ResultRow Value)) (row : ResultRow Value)
      → All (Owned run pass) rows
      → Owned run pass row
      → All (Owned run pass) (replace_row row rows)
  unfolding replace_row
  Owned-replace run pass [] row h o = tt
  Owned-replace run pass (r ∷ rows) row h o =
      elim (Bool-cases (str_eq r.metric_result_id row.metric_result_id)) [
        | inl t ↦ rw (t, replace_row) (o, h.1)
        | inr t ↦ rw (t, replace_row) (h.0, Owned-replace run pass rows row h.1 o)
      ]

  -- Writing a row of a run to a table of that run's rows never raises; the row's id tells the row's
  -- status and value then, and the other ids what they told before.
  pub persist_metric_writes :
      (run : String) (pass : Option String) (row : ResultRow Value) (rows : List (ResultRow Value))
      → str_eq run "" ≡ false
      → Owned run pass row
      → All (Owned run pass) rows
      → (rows' : List (ResultRow Value)) × (persist_metric row rows ≡ some rows')
        × All (Owned run pass) rows'
        × ((id : String)
            → outcome_at id rows' ≡ (
                if str_eq row.metric_result_id id
                then some (row.status, row.value)
                else outcome_at id rows))
  unfolding persist_metric
  persist_metric_writes run pass row rows named o h =
      let id : String = row.metric_result_id in
      let unnamed : str_eq row.run_id "" ≡ false = ap (λ s. str_eq s "") o.0 ∙ named in
      elim (Option-cases (find_row id rows)) [
        | inl free ↦ (
          rows ++ row ∷ [],
          ground (arith, unnamed, free),
          Owned-append run pass rows row h o,
          λ j. outcome-append j rows row free,
        )
        | inr (old, taken) ↦
            let mine = find_row-Owned run pass id rows old h taken in
            let same_run : str_eq old.run_id row.run_id ≡ true =
              (eq_iff old.run_id row.run_id).1 (mine.0 ∙ sym o.0) in
            let same_pass : same_option old.metric_run_id row.metric_run_id ≡ true =
              ap (λ x. same_option x row.metric_run_id) (mine.1 ∙ sym o.1)
              ∙ same_option_refl row.metric_run_id in
            (
              replace_row row rows,
              ground (arith, unnamed, taken, same_run, same_pass),
              Owned-replace run pass rows row h o,
              λ j. outcome-replace j rows row (ground (arith, taken)),
            )
      ]
