-- ===== src/Config/Matrix/Expansion.antt =====
-- What `expand_matrix` of src/rag_eval/config/matrix.py plans.
use rag_eval.Prelude.{
  ℕ, ◌*◌, ◌≤◌, ◌≡◌, Bool, true, false, ◌||◌, Option, some, String, List, [], ◌∷◌, map, str_eq,
  eq_iff, any, length, length-append, All, refl, subst, ap, ◌∙◌, arith, inl, inr, Bool-cases,
  Option-cases,
}
use rag_eval.Config.Matrix.{Payload, product, pairs, plan_one, expand, expand_matrix}

-- The number of combinations.
abbrev pub combinations {ℓ} : {A : Type ℓ} → List (List A) → ℕ
combinations [] = 1
combinations (xs ∷ rest) = length xs * combinations rest

length-map {ℓ κ} :
    {A : Type ℓ} {B : Type κ} (f : A → B) (xs : List A) → length (map f xs) ≡ length xs
length-map f [] = refl
length-map f (x ∷ xs) = omega (arith, length-map f xs)

length-pairs {ℓ} :
    {A : Type ℓ} (xs : List A) (tails : List (List A))
    → length (pairs xs tails) ≡ length xs * length tails
unfolding pairs
length-pairs [] tails = omega arith
length-pairs (x ∷ xs) tails = omega (
  arith,
  length-append (map (λ t. x ∷ t) tails) (pairs xs tails),
  length-map (λ t. x ∷ t) tails,
  length-pairs xs tails,
)

length-product {ℓ} : {A : Type ℓ} (xss : List (List A)) → length (product xss) ≡ combinations xss
unfolding product
length-product [] = refl
length-product (xs ∷ rest) =
    length-pairs xs (product rest) ∙ ap (λ n. length xs * n) (length-product rest)

module _ {Leaf Config : Type 0} (validate : Payload Leaf → Option Config)
    (configuration_hash : Config → String) where
  -- Whether a planned configuration has a hash.
  abbrev pub has_hash : String → List (Config × String) → Bool
  has_hash h = any (λ p. str_eq p.1 h)

  abbrev pub Distinct : List (Config × String) → Type 0
  Distinct [] = Unit
  Distinct (p ∷ ps) = (has_hash p.1 ps ≡ false) × Distinct ps

  abbrev pub was_seen : String → List String → Bool
  was_seen h seen = any (λ s. str_eq s h) seen

  -- A combination that is valid, and whose configuration is planned, or was before.
  abbrev pub Planned :
      List (List String)
      → Payload Leaf
      → List String
      → List (Config × String)
      → List (Payload Leaf)
      → Type 0
  Planned paths base seen planned combination =
      (p : Config × String) × (plan_one validate configuration_hash paths base combination ≡ some p)
      × ((was_seen p.1 seen || has_hash p.1 planned) ≡ true)

  -- What a run of the loop plans.
  Plans :
      List (List String)
      → Payload Leaf
      → List String
      → List (List (Payload Leaf))
      → List (Config × String)
      → Type 0
  Plans paths base seen combinations planned =
      Distinct planned
      × (length planned ≤ length combinations)
      × ((h : String) → was_seen h seen ≡ true → has_hash h planned ≡ false)
      × All (Planned paths base seen planned) combinations

  Planned-first :
      (paths : List (List String)) (base : Payload Leaf) (seen : List String) (p : Config × String)
      (later : List (Config × String)) (cs : List (List (Payload Leaf)))
      → All (Planned paths base (p.1 ∷ seen) later) cs
      → All (Planned paths base seen (p ∷ later)) cs
  Planned-first paths base seen p later [] h = tt
  Planned-first paths base seen p later (c ∷ cs) h =
      let (q, valid, known) = h.0 in
      ((q, valid, ground (arith, known)), Planned-first paths base seen p later cs h.1)

  -- A new combination before the plan of the rest.
  Plans-first :
      (paths : List (List String)) (base : Payload Leaf) (seen : List String)
      (c : List (Payload Leaf)) (cs : List (List (Payload Leaf))) (p : Config × String)
      (later : List (Config × String))
      → plan_one validate configuration_hash paths base c ≡ some p
      → was_seen p.1 seen ≡ false
      → Plans paths base (p.1 ∷ seen) cs later
      → Plans paths base seen (c ∷ cs) (p ∷ later)
  unfolding Plans
  Plans-first paths base seen c cs p later valid new (distinct, size, fresh, all) =
      let itself : str_eq p.1 p.1 ≡ true = (eq_iff p.1 p.1).1 refl in
      (
        (fresh p.1 (ground (arith, itself)), distinct),
        omega (arith, size),
        λ h known. elim (Bool-cases (str_eq p.1 h)) [
          | inl t ↦
              let e : was_seen p.1 seen ≡ was_seen h seen =
                ap (λ x. was_seen x seen) ((eq_iff p.1 h).0 t) in
              absurd (ground (arith, e, known, new))
          | inr t ↦ ground (arith, t, fresh h (ground (arith, known)))
        ],
        ((p, valid, ground (arith, itself)), Planned-first paths base seen p later cs all),
      )

  expand-Plans :
      (paths : List (List String)) (base : Payload Leaf) (seen : List String)
      (combinations : List (List (Payload Leaf))) (planned : List (Config × String))
      → expand validate configuration_hash paths base seen combinations ≡ some planned
      → Plans paths base seen combinations planned
  unfolding expand Plans
  expand-Plans paths base seen [] planned e =
      let done : [] ≡ planned = ground arith in
      subst (Plans paths base seen []) done (tt, omega arith, (λ h k. refl), tt)
  expand-Plans paths base seen (c ∷ cs) planned e =
      elim (Option-cases (plan_one validate configuration_hash paths base c)) [
        | inl invalid ↦ absurd (ground arith)
        | inr (p, valid) ↦ elim (Bool-cases (was_seen p.1 seen)) [
          | inl old ↦
              let (distinct, size, fresh, all) =
                expand-Plans paths base seen cs planned (ground arith) in
              (distinct, omega (arith, size), fresh, ((p, valid, ground (arith, old)), all))
          | inr new ↦
              elim (Option-cases (expand validate configuration_hash paths base (p.1 ∷ seen) cs)) [
                | inl fails ↦ absurd (ground arith)
                | inr (later, rest) ↦
                    let shape : p ∷ later ≡ planned = ground arith in
                    subst (Plans paths base seen (c ∷ cs)) shape (
                      Plans-first paths base seen c cs p later valid new
                        (expand-Plans paths base (p.1 ∷ seen) cs later rest))
              ]
        ]
      ]

  -- When a matrix is expanded, no two planned configurations have the same hash, there are at most as
  -- many as combinations of the matrix, and every combination is valid and has its hash among the
  -- planned ones.
  pub expand_matrix_plans :
      (matrix : List (List String × List (Payload Leaf))) (base : Payload Leaf)
      (planned : List (Config × String))
      → expand_matrix validate configuration_hash matrix base ≡ some planned
      → let values = map (λ (m : List String × List (Payload Leaf)). m.1) matrix in
        Distinct planned
        × (length planned ≤ combinations values)
        × All
            (Planned (map (λ (m : List String × List (Payload Leaf)). m.0) matrix) base [] planned)
            (product values)
  unfolding expand_matrix Plans
  expand_matrix_plans matrix base planned e =
      let values : List (List (Payload Leaf)) = map (λ m. m.1) matrix in
      let (distinct, size, fresh, all) =
        expand-Plans (map (λ m. m.0) matrix) base [] (product values) planned e in
      (distinct, omega (arith, size, length-product values), all)
