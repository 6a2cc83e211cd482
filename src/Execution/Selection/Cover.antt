-- ===== src/Execution/Selection/Cover.antt =====
-- Which cases `_run_workers` of src/rag_eval/execution/engine.py selects.
use rag_eval.Prelude.{
  ◌≡◌, inl, inr, Bool, true, false, none, some, is_some, String, List, [], ◌∷◌, map, keep, All,
  refl, arith, Option-cases,
}
use rag_eval.Execution.Cases.{CaseRow}
use rag_eval.Execution.Selection.{
  Item, get, all, index_cases, load_case_execution_ids, status_of, test_status, selected_cases,
  wanted,
}

-- The selected cases are the wanted cases of the benchmark.
selected_cases-wanted :
    (only_pending : Bool) (ids : List Item) (records : List CaseRow) (cases : List String)
    → map (λ (i : Item). i.0) (selected_cases only_pending ids records cases)
      ≡ keep (wanted only_pending ids records) cases
unfolding selected_cases wanted
selected_cases-wanted only_pending ids records [] = refl
selected_cases-wanted only_pending ids records (c ∷ cases) =
    ground (arith, selected_cases-wanted only_pending ids records cases)

-- A case that is indexed is one that must run unless its execution is complete.
abbrev pub Left : List Item → List CaseRow → String → Type 0
Left ids records case =
    (id : String) × (get case ids ≡ some id)
    × (wanted false ids records case ≡ test_status false (status_of id records))

all-Left :
    (ids : List Item) (records : List CaseRow) (cases : List String)
    → all (λ c. is_some (get c ids)) cases ≡ true
    → All (Left ids records) cases
unfolding wanted
all-Left ids records [] h = tt
all-Left ids records (c ∷ cases) h = elim (Option-cases (get c ids)) [
  | inl e ↦ absurd (ground arith)
  | inr (id, e) ↦ ((id, e, ground arith), all-Left ids records cases (ground arith))
]

-- An execution of a whole run drops no case: when the ids are loaded without a request, every case
-- of the benchmark has its execution, and the workers are given, in the benchmark's order, exactly
-- the cases whose execution is not COMPLETE.
pub selection_covers :
    (records : List CaseRow) (cases : List String) (ids : List Item)
    → load_case_execution_ids cases none records ≡ some ids
    → All (Left ids records) cases
      × (map (λ (i : Item). i.0) (selected_cases false ids records cases)
          ≡ keep (wanted false ids records) cases)
unfolding load_case_execution_ids
selection_covers records cases ids h = (
  elim (Option-cases (index_cases records [])) [
    | inl e ↦ absurd (ground arith)
    | inr (by_case, e) ↦ all-Left ids records cases (ground arith)
  ],
  selected_cases-wanted false ids records cases,
)
