-- ===== src/Config/Matrix.antt =====
-- The expansion of experiment matrices: src/rag_eval/config/matrix.py.
--
-- A serialized configuration is a tree of dicts; every other value is a leaf, of an opaque type. A path
-- is the list of its parts, and a matrix lists its paths in sorted order with their values. `none`
-- is the ConfigurationError. The validation of a payload and the hash of a configuration are
-- parameters.
pub mod Paths
pub mod Expansion
use rag_eval.Prelude.{
  ℕ, Bool, true, false, ◌||◌, Option, none, some, is_some, String, List, [], ◌∷◌, ◌++◌, map, str_eq,
  any, if◌then◌else◌,
}

-- A payload, and the entries of a dict.
mutual
  pub data Payload (Leaf : Type 0) : Type 0 where
    leaf : Leaf → Payload Leaf
    dict : Entries Leaf → Payload Leaf

  pub data Entries (Leaf : Type 0) : Type 0 where
    no_entries : Entries Leaf
    entry : String → Payload Leaf → Entries Leaf → Entries Leaf

abbrev pub same_parts : List String → List String → Bool
same_parts [] [] = true
same_parts [] (b ∷ qs) = false
same_parts (a ∷ ps) [] = false
same_parts (a ∷ ps) (b ∷ qs) = if str_eq a b then same_parts ps qs else false

-- `_allows_new_key`
unfoldable pub allows_new_key : List String → Bool
allows_new_key prefix =
    same_parts prefix ("target" ∷ "parameters" ∷ [])
    || same_parts prefix ("target" ∷ "corpus" ∷ "parameters" ∷ [])

module _ {Leaf : Type 0} where
  unfoldable pub get : String → Entries Leaf → Option (Payload Leaf)
  get k no_entries = none
  get k (entry j v es) = if str_eq j k then some v else get k es

  -- `d[k] = v`
  unfoldable pub put : String → Payload Leaf → Entries Leaf → Entries Leaf
  put k v no_entries = entry k v no_entries
  put k v (entry j w es) = if str_eq j k then entry j v es else entry j w (put k v es)

  -- `_set_matrix_path` below a prefix: the payload with the value at the path.
  unfoldable pub set_below :
      List String → List String → Payload Leaf → Payload Leaf → Option (Payload Leaf)
  set_below prefix [] value current = some current
  set_below prefix (part ∷ parts) value (leaf l) = none
  set_below prefix (part ∷ []) value (dict es) =
      if is_some (get part es) || allows_new_key prefix
      then some (dict (put part value es))
      else none
  set_below prefix (part ∷ next ∷ parts) value (dict es) = elim (get part es) [
    | none ↦ none
    | some child ↦ elim (set_below (prefix ++ part ∷ []) (next ∷ parts) value child) [
      | none ↦ none
      | some changed ↦ some (dict (put part changed es))
    ]
  ]

  -- `_set_matrix_path`
  unfoldable pub set_matrix_path : List String → Payload Leaf → Payload Leaf → Option (Payload Leaf)
  set_matrix_path = set_below []

  -- What stands at a path.
  unfoldable pub value_at : List String → Payload Leaf → Option (Payload Leaf)
  value_at [] p = some p
  value_at (part ∷ parts) (leaf l) = none
  value_at (part ∷ parts) (dict es) = elim (get part es) [
    | none ↦ none
    | some child ↦ value_at parts child
  ]

  -- `for path, value in zip(paths, combination, strict=True)`
  unfoldable pub set_all :
      List (List String) → List (Payload Leaf) → Payload Leaf → Option (Payload Leaf)
  set_all [] values payload = some payload
  set_all (path ∷ paths) [] payload = none
  set_all (path ∷ paths) (value ∷ values) payload = elim (set_matrix_path path value payload) [
    | none ↦ none
    | some changed ↦ set_all paths values changed
  ]

-- Each of some heads before each of some tails, the tails turning faster.
unfoldable pub pairs {ℓ} : {A : Type ℓ} → List A → List (List A) → List (List A)
pairs [] tails = []
pairs (x ∷ xs) tails = map (λ t. x ∷ t) tails ++ pairs xs tails

-- `itertools.product`
unfoldable pub product {ℓ} : {A : Type ℓ} → List (List A) → List (List A)
product [] = [] ∷ []
product (xs ∷ rest) = pairs xs (product rest)

module _ {Leaf Config : Type 0} (validate : Payload Leaf → Option Config)
    (configuration_hash : Config → String) where
  -- What one combination is planned as.
  unfoldable pub plan_one :
      List (List String) → Payload Leaf → List (Payload Leaf) → Option (Config × String)
  plan_one paths base combination = elim (set_all paths combination base) [
    | none ↦ none
    | some payload ↦ elim (validate payload) [
      | none ↦ none
      | some expanded ↦ some (expanded, configuration_hash expanded)
    ]
  ]

  -- The loop of `expand_matrix` over the combinations, with the hashes seen.
  unfoldable pub expand :
      List (List String)
      → Payload Leaf
      → List String
      → List (List (Payload Leaf))
      → Option (List (Config × String))
  expand paths base seen [] = some []
  expand paths base seen (combination ∷ rest) = elim (plan_one paths base combination) [
    | none ↦ none
    | some planned ↦
        if any (λ s. str_eq s planned.1) seen
        then expand paths base seen rest
        else (elim (expand paths base (planned.1 ∷ seen) rest) [
          | none ↦ none
          | some later ↦ some (planned ∷ later)
        ])
  ]

  -- `expand_matrix` for a matrix that is not empty, less the hash of the parent.
  unfoldable pub expand_matrix :
      List (List String × List (Payload Leaf)) → Payload Leaf → Option (List (Config × String))
  expand_matrix matrix base =
      expand (map (λ m. m.0) matrix) base [] (product (map (λ m. m.1) matrix))
