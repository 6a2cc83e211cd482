-- ===== src/Execution/Selection.antt =====
-- Which cases an execution runs: `_load_case_execution_ids` and the selection in `_run_workers` of
-- src/rag_eval/execution/engine.py.
--
-- A benchmark is the list of its case ids, and a dict is the list of its pairs. A requested subset is
-- a list of execution ids. `none` stands for the ValueError.
pub mod Cover
use rag_eval.Prelude.{
  ℕ, Bool, true, false, not, ◌&&◌, Option, none, some, is_some, String, List, [], ◌∷◌, ◌++◌, str_eq,
  any, keep, if◌then◌else◌,
}
use rag_eval.Execution.Store.{CaseExecutionStatus}
use rag_eval.Execution.Cases.{CaseRow}
use rag_eval.Execution.Runs.{is_complete, is_pending}

-- A case id and the id of its execution.
abbrev pub Item : Type 0
Item = String × String

-- `dict.get` on the pairs of a dict.
unfoldable pub get {ℓ} : {V : Type ℓ} → String → List (String × V) → Option V
get k [] = none
get k ((j, v) ∷ pairs) = if str_eq j k then some v else get k pairs

abbrev pub test_status : Bool → Option CaseExecutionStatus → Bool
test_status true none = false
test_status true (some s) = is_pending s
test_status false none = true
test_status false (some s) = not (is_complete s)

abbrev pub all {ℓ} : {A : Type ℓ} → (A → Bool) → List A → Bool
all p [] = true
all p (x ∷ xs) = p x && all p xs

-- The loop that fills `by_case`.
unfoldable pub index_cases : List CaseRow → List Item → Option (List Item)
index_cases [] by_case = some by_case
index_cases (r ∷ records) by_case =
    if is_some (get r.case_id by_case)
    then none
    else index_cases records (by_case ++ (r.case_id, r.case_execution_id) ∷ [])

abbrev pub contains : List String → String → Bool
contains xs x = any (str_eq x) xs

restrict : Option (List String) → List Item → Option (List Item)
restrict none by_case = some by_case
restrict (some requested) by_case =
    if all (λ id. any (λ i. str_eq id i.1) by_case) requested
    then some (keep (λ i. contains requested i.1) by_case)
    else none

-- `_load_case_execution_ids`
unfoldable pub load_case_execution_ids :
    List String → Option (List String) → List CaseRow → Option (List Item)
unfolding restrict
load_case_execution_ids cases requested records = elim (index_cases records []) [
  | none ↦ none
  | some by_case ↦
      if all (λ c. is_some (get c by_case)) cases && all (λ i. contains cases i.0) by_case
      then restrict requested by_case
      else none
]

-- The status of an execution among the rows.
unfoldable pub status_of : String → List CaseRow → Option CaseExecutionStatus
status_of id [] = none
status_of id (r ∷ records) =
    if str_eq r.case_execution_id id then some r.status else status_of id records

-- `selected_cases`, for the benchmark's case ids, the execution ids of the cases, and the statuses
-- of the executions in the rows.
unfoldable pub selected_cases :
    Bool → List (String × String) → List CaseRow → List String → List Item
selected_cases only_pending ids records [] = []
selected_cases only_pending ids records (case ∷ cases) =
    let rest = selected_cases only_pending ids records cases in
    elim (get case ids) [
      | none ↦ rest
      | some id ↦
          if test_status only_pending (status_of id records) then (case, id) ∷ rest else rest
    ]

-- Whether a case of the benchmark has an execution that passes that test.
unfoldable pub wanted : Bool → List Item → List CaseRow → String → Bool
wanted only_pending ids records case = elim (get case ids) [
  | none ↦ false
  | some id ↦ test_status only_pending (status_of id records)
]
