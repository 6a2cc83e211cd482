-- ===== src/Config/Matrix/Paths.antt =====
-- What `_set_matrix_path` of src/rag_eval/config/matrix.py changes.
use rag_eval.Prelude.{
  ◌≡◌, ◌≢◌, ◌⊎◌, subst, false, some, String, List, [], ◌∷◌, ◌++◌, str_eq, eq_iff, refl, sym, ap,
  ◌∙◌, arith, if◌then◌else◌, inl, inr, Bool-cases, Option-cases,
}
use rag_eval.Config.Matrix.{
  Payload, Entries, leaf, dict, no_entries, entry, get, put, set_below, set_matrix_path, value_at,
}

-- Two paths that part somewhere.
abbrev pub Part : List String → List String → Type 0
Part [] qs = ⊥
Part (a ∷ ps) [] = ⊥
Part (a ∷ ps) (b ∷ qs) = (str_eq a b ≡ false) ⊎ ((a ≡ b) × Part ps qs)

module _ {Leaf : Type 0} where
  get-put :
      (j k : String) (v : Payload Leaf) (es : Entries Leaf)
      → get j (put k v es) ≡ (if str_eq k j then some v else get j es)
  unfolding get put
  get-put j k v no_entries = refl
  get-put j k v (entry i w es) = elim (Bool-cases (str_eq i k)) [
    | inl t ↦
        let e : str_eq i j ≡ str_eq k j = ap (λ x. str_eq x j) ((eq_iff i k).0 t) in
        ground (arith, e)
    | inr t ↦ elim (Bool-cases (str_eq k j)) [
      | inl u ↦
          let e : str_eq i j ≡ str_eq i k = ap (str_eq i) (sym ((eq_iff k j).0 u)) in
          ground (arith, e, get-put j k v es)
      | inr u ↦ ground (arith, get-put j k v es)
    ]
  ]

  value_at-put :
      (k : String) (path : List String) (v : Payload Leaf) (es : Entries Leaf)
      → value_at (k ∷ path) (dict (put k v es)) ≡ value_at path v
  unfolding value_at
  value_at-put k path v es =
      let found : get k (put k v es) ≡ some v = get-put k k v es ∙ rw ((eq_iff k k).1 refl) refl in
      rw (found, value_at) refl

  -- What a path with at least two parts sets below its first part.
  set_below_step :
      (prefix : List String) (a b : String) (ps : List String) (v : Payload Leaf)
      (es : Entries Leaf) (p' : Payload Leaf)
      → set_below prefix (a ∷ b ∷ ps) v (dict es) ≡ some p'
      → (child changed : Payload Leaf) × (get a es ≡ some child)
        × (set_below (prefix ++ a ∷ []) (b ∷ ps) v child ≡ some changed)
        × (p' ≡ dict (put a changed es))
  unfolding set_below
  set_below_step prefix a b ps v es p' e = elim (Option-cases (get a es)) [
    | inl none_there ↦ absurd (ground arith)
    | inr (child, f) ↦ elim (Option-cases (set_below (prefix ++ a ∷ []) (b ∷ ps) v child)) [
      | inl refused ↦ absurd (ground arith)
      | inr (changed, g) ↦ (child, changed, f, g, ground arith)
    ]
  ]

  set_below_leaf :
      (prefix : List String) (a : String) (v : Payload Leaf) (es : Entries Leaf) (p' : Payload Leaf)
      → set_below prefix (a ∷ []) v (dict es) ≡ some p'
      → p' ≡ dict (put a v es)
  unfolding set_below
  set_below_leaf prefix a v es p' e = ground arith

  set_below-value_at :
      (prefix path : List String) (v p p' : Payload Leaf)
      → path ≢ []
      → set_below prefix path v p ≡ some p'
      → value_at path p' ≡ some v
  unfolding set_below value_at
  set_below-value_at prefix [] v p p' h e = absurd (h refl)
  set_below-value_at prefix (a ∷ ps) v (leaf l) p' h e = absurd (ground arith)
  set_below-value_at prefix (a ∷ []) v (dict es) p' h e =
      ap (value_at (a ∷ [])) (set_below_leaf prefix a v es p' e) ∙ value_at-put a [] v es
  set_below-value_at prefix (a ∷ b ∷ qs) v (dict es) p' h e =
      let (child, changed, f, g, shape) = set_below_step prefix a b qs v es p' e in
      ap (value_at (a ∷ b ∷ qs)) shape
      ∙ value_at-put a (b ∷ qs) changed es
      ∙ set_below-value_at (prefix ++ a ∷ []) (b ∷ qs) v child changed (λ n. absurd (ground arith))
          g

  value_at_elsewhere :
      (j k : String) (path : List String) (v : Payload Leaf) (es : Entries Leaf)
      → str_eq k j ≡ false
      → value_at (j ∷ path) (dict (put k v es)) ≡ value_at (j ∷ path) (dict es)
  unfolding value_at
  value_at_elsewhere j k path v es h =
      let same : get j (put k v es) ≡ get j es = get-put j k v es ∙ rw h refl in
      rw (same, value_at) refl

  leaf_refused :
      (prefix : List String) (a : String) (ps : List String) (v : Payload Leaf) (l : Leaf)
      (p' : Payload Leaf)
      → ¬ (set_below prefix (a ∷ ps) v (leaf l) ≡ some p')
  unfolding set_below
  leaf_refused prefix a ps v l p' e = ground arith

  below_same :
      (a b : String) (qs : List String) (changed child : Payload Leaf) (es : Entries Leaf)
      → a ≡ b
      → get a es ≡ some child
      → value_at qs changed ≡ value_at qs child
      → value_at (b ∷ qs) (dict (put a changed es)) ≡ value_at (b ∷ qs) (dict es)
  unfolding value_at
  below_same a b qs changed child es same f below =
      subst
        (λ (x : String). value_at (x ∷ qs) (dict (put a changed es)) ≡ value_at (x ∷ qs) (dict es))
        same (value_at-put a qs changed es ∙ below ∙ rw (f, value_at) refl)

  set_below_elsewhere :
      (prefix path other : List String) (v p p' : Payload Leaf)
      → Part path other
      → set_below prefix path v p ≡ some p'
      → value_at other p' ≡ value_at other p
  set_below_elsewhere prefix [] other v p p' d e = absurd d
  set_below_elsewhere prefix (a ∷ ps) [] v p p' d e = absurd d
  set_below_elsewhere prefix (a ∷ ps) (b ∷ qs) v (leaf l) p' d e =
      absurd (leaf_refused prefix a ps v l p' e)
  set_below_elsewhere prefix (a ∷ []) (b ∷ qs) v (dict es) p' d e = elim d [
    | inl h ↦
        ap (value_at (b ∷ qs)) (set_below_leaf prefix a v es p' e)
        ∙ value_at_elsewhere b a qs v es h
    | inr (same, never) ↦ absurd never
  ]
  set_below_elsewhere prefix (a ∷ c ∷ ps) (b ∷ qs) v (dict es) p' d e =
      let (child, changed, f, g, shape) = set_below_step prefix a c ps v es p' e in
      ap (value_at (b ∷ qs)) shape ∙ elim d [
        | inl h ↦ value_at_elsewhere b a qs changed es h
        | inr (same, part) ↦
            below_same a b qs changed child es same f
              (set_below_elsewhere (prefix ++ a ∷ []) (c ∷ ps) qs v child changed part g)
      ]

  -- After a path of a matrix was set, the value stands at the path, and at every path that parts from
  -- it somewhere the payload is as before.
  pub set_matrix_path-value_at :
      (path : List String) (v p p' : Payload Leaf)
      → path ≢ []
      → set_matrix_path path v p ≡ some p'
      → (value_at path p' ≡ some v)
        × ((other : List String) → Part path other → value_at other p' ≡ value_at other p)
  unfolding set_matrix_path
  set_matrix_path-value_at path v p p' h e = (
    set_below-value_at [] path v p p' h e,
    λ other d. set_below_elsewhere [] path other v p p' d e,
  )
