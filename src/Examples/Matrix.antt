-- ===== src/Examples/Matrix.antt =====
-- A matrix over one parameter of a target (src/rag_eval/config/matrix.py).
use rag_eval.Prelude.{ℕ, ◌≤◌, ◌≡◌, ◌≢◌, Option, some, String, List, [], ◌∷◌, All, refl, arith}
use rag_eval.Config.Matrix.{
  Payload, leaf, dict, no_entries, entry, get, put, set_below, set_matrix_path, set_all, value_at,
  product, pairs, plan_one, expand, expand_matrix, allows_new_key,
}
use rag_eval.Config.Matrix.Paths.{Part, set_matrix_path-value_at}
use rag_eval.Config.Matrix.Expansion.{combinations, Distinct, Planned, expand_matrix_plans}

abbrev path : List String
path = "target" ∷ "parameters" ∷ "top_k" ∷ []

abbrev base : Payload ℕ
base = dict (entry "target" (dict (entry "parameters" (dict no_entries) no_entries)) no_entries)

abbrev with_top_k : ℕ → Payload ℕ
with_top_k k = dict (
    entry "target" (dict (entry "parameters" (dict (entry "top_k" (leaf k) no_entries)) no_entries))
      no_entries)

sets : set_matrix_path path (leaf 5) base ≡ some (with_top_k 5)
unfolding set_matrix_path set_below get put allows_new_key
sets = refl

not_empty : path ≢ []
not_empty e = ground arith

set_matrix_path-value_at_example :
    (value_at path (with_top_k 5) ≡ some (leaf 5))
    × ((other : List String)
        → Part path other
        → value_at other (with_top_k 5) ≡ value_at other base)
set_matrix_path-value_at_example =
    set_matrix_path-value_at path (leaf 5) base (with_top_k 5) not_empty sets

-- A hash that only tells whether there is a payload.
abbrev accept : Payload ℕ → Option (Payload ℕ)
accept p = some p

abbrev hash : Payload ℕ → String
hash p = "h"

abbrev sizes : List (Payload ℕ)
sizes = leaf 5 ∷ leaf 10 ∷ []

abbrev matrix : List (List String × List (Payload ℕ))
matrix = (path, sizes) ∷ []

expands : expand_matrix accept hash matrix base ≡ some ((with_top_k 5, "h") ∷ [])
unfolding expand_matrix expand plan_one set_all set_matrix_path set_below get put allows_new_key
    product pairs
expands = refl

expand_matrix_plans_example :
    Distinct accept hash ((with_top_k 5, "h") ∷ [])
    × (1 ≤ combinations (sizes ∷ []))
    × All
        (Planned accept hash (path ∷ []) base [] ((with_top_k 5, "h") ∷ []))
        (product (sizes ∷ []))
expand_matrix_plans_example =
    expand_matrix_plans accept hash matrix base ((with_top_k 5, "h") ∷ []) expands
