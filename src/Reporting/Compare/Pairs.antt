-- ===== src/Reporting/Compare/Pairs.antt =====
-- The pairs of values of two runs (src/rag_eval/reporting/compare.py).
use rag_eval.Prelude.{
  ◌≡◌, refl, ap, sym, ◌∙◌, Bool, true, false, if◌then◌else◌, ◌&&◌, Option, none, some, is_some,
  String, List, [], ◌∷◌, keep, All, arith, inl, inr, Option-cases, str_eq, eq_iff,
}
use rag_eval.Prelude.Int.{ℤ}
use rag_eval.Prelude.Dict.{lookup, assign, keys, keys-lookup, All-sorted, All-keep}
use rag_eval.Prelude.Occurrences.{one_if, count, count-sorted, count-keep, assign-occurs_once}
use rag_eval.Reporting.Compare.{
  CaseValue, values_of, text_le, common_cases, values_at, paired_values,
}

abbrev is_id : String → Option String → Bool
is_id id none = false
is_id id (some j) = str_eq j id

-- A case's value of a metric in its version: that of the last row which is for them and has a number.
abbrev pub case_value : String → String → List CaseValue → String → Option ℤ
case_value metric version [] id = none
case_value metric version (row ∷ rows) id = elim (case_value metric version rows id) [
  | some v ↦ some v
  | none ↦
      if is_id id row.case_id && (str_eq row.metric_id metric && str_eq row.metric_version version)
      then row.value
      else none
]

-- The values of the cases, in their order, on both sides.
abbrev pub Aligned :
    (String → Option ℤ) → (String → Option ℤ) → List String → List ℤ → List ℤ → Type 0
Aligned a b [] [] [] = Unit
Aligned a b (id ∷ ids) (x ∷ xs) (y ∷ ys) = (a id ≡ some x) × (b id ≡ some y) × Aligned a b ids xs ys
Aligned a b _ _ _ = ⊥

Aligned-same :
    (a a' b b' : String → Option ℤ) (ids : List String) (xs ys : List ℤ)
    → ((id : String) → a id ≡ a' id)
    → ((id : String) → b id ≡ b' id)
    → Aligned a b ids xs ys
    → Aligned a' b' ids xs ys
Aligned-same a a' b b' [] [] [] p q h = h
Aligned-same a a' b b' (id ∷ ids) (x ∷ xs) (y ∷ ys) p q h =
    (sym (p id) ∙ h.0, sym (q id) ∙ h.1, Aligned-same a a' b b' ids xs ys p q h.2)
Aligned-same a a' b b' [] [] (y ∷ ys) p q h = absurd h
Aligned-same a a' b b' [] (x ∷ xs) ys p q h = absurd h
Aligned-same a a' b b' (id ∷ ids) [] ys p q h = absurd h
Aligned-same a a' b b' (id ∷ ids) (x ∷ xs) [] p q h = absurd h

lookup-assign :
    (k j : String) (v : ℤ) (d : List (String × ℤ))
    → lookup str_eq k (assign str_eq j v d) ≡ (if str_eq j k then some v else lookup str_eq k d)
unfolding lookup assign
lookup-assign k j v [] = refl
lookup-assign k j v ((i, w) ∷ d) =
    ground (arith, lookup-assign k j v d, eq_iff i j, eq_iff i k, eq_iff j k)

abbrev or_before : Option ℤ → Option ℤ → Option ℤ
or_before none before = before
or_before (some v) before = some v

-- The dict that the code builds has these values.
values_of-case_value :
    (metric version : String) (d : List (String × ℤ)) (rows : List CaseValue) (id : String)
    → lookup str_eq id (values_of metric version d rows)
      ≡ or_before (case_value metric version rows id) (lookup str_eq id d)
unfolding values_of
values_of-case_value metric version d [] id = refl
values_of-case_value metric version d (row ∷ rows) id =
    let kept = values_of-case_value metric version d rows id in
    elim (Option-cases row.case_id) [
      | inl none_given ↦ ground (arith, kept)
      | inr (j, has_case) ↦ elim (Option-cases row.value) [
        | inl no_number ↦ ground (arith, kept)
        | inr (v, has_number) ↦ ground (
          arith,
          kept,
          values_of-case_value metric version (assign str_eq j v d) rows id,
          lookup-assign id j v d,
        )
      ]
    ]

values_at-Aligned :
    (a b : List (String × ℤ)) (ids : List String)
    → All
        (λ (k : String).
          (is_some (lookup str_eq k a) ≡ true) × (is_some (lookup str_eq k b) ≡ true))
        ids
    → (xs : List ℤ) × (ys : List ℤ) × (values_at a ids ≡ some xs)
      × (values_at b ids ≡ some ys)
      × Aligned (λ k. lookup str_eq k a) (λ k. lookup str_eq k b) ids xs ys
unfolding values_at
values_at-Aligned a b [] h = ([], [], refl, refl, tt)
values_at-Aligned a b (id ∷ ids) h = elim (Option-cases (lookup str_eq id a)) [
  | inl lost ↦ absurd (ground arith)
  | inr (x, found_a) ↦ elim (Option-cases (lookup str_eq id b)) [
    | inl lost ↦ absurd (ground arith)
    | inr (y, found_b) ↦
        let (xs, ys, done_a, done_b, rest) = values_at-Aligned a b ids h.1 in
        (x ∷ xs, y ∷ ys, ground arith, ground arith, (found_a, found_b, rest))
  ]
]

text_refl : (k : String) → str_eq k k ≡ true
text_refl k = (eq_iff k k).1 refl

-- The values by their cases have each case once.
values_of-once :
    (metric version : String) (d : List (String × ℤ)) (rows : List CaseValue)
    → ((k : String)
        → count (λ j. str_eq j k) (keys str_eq d) ≡ one_if (is_some (lookup str_eq k d)))
    → (k : String)
    → count (λ j. str_eq j k) (keys str_eq (values_of metric version d rows))
      ≡ one_if (is_some (lookup str_eq k (values_of metric version d rows)))
unfolding values_of
values_of-once metric version d [] once = once
values_of-once metric version d (row ∷ rows) once =
    let kept = values_of-once metric version d rows once in
    elim (Option-cases row.case_id) [
      | inl none_given ↦ λ k. ground (arith, kept k)
      | inr (id, has_case) ↦ elim (Option-cases row.value) [
        | inl no_number ↦ λ k. ground (arith, kept k)
        | inr (v, has_number) ↦ λ k. ground (
          arith,
          kept k,
          values_of-once metric version (assign str_eq id v d) rows
              (assign-occurs_once str_eq text_refl (λ i j. (eq_iff i j).0) id v d once) k,
        )
      ]
    ]

common_cases-both :
    (metric version : String) (rows_a : List CaseValue) (b : List (String × ℤ)) (k : String)
    → count (λ j. str_eq j k) (common_cases (values_of metric version [] rows_a) b)
      ≡ one_if (
          is_some (lookup str_eq k (values_of metric version [] rows_a))
          && is_some (lookup str_eq k b))
unfolding common_cases lookup count
common_cases-both metric version rows_a b k = ground (
  arith,
  count-sorted (λ j. str_eq j k) text_le
      (keep (λ j. is_some (lookup str_eq j b)) (keys str_eq (values_of metric version [] rows_a))),
  count-keep (λ j. str_eq j k) (λ j. is_some (lookup str_eq j b)) (is_some (lookup str_eq k b))
      (keys str_eq (values_of metric version [] rows_a))
      (λ j e. ap (λ i. is_some (lookup str_eq i b)) ((eq_iff j k).0 e)),
  values_of-once metric version [] rows_a (λ i. refl) k,
)

values_of-new :
    (metric version : String) (rows : List CaseValue) (id : String)
    → lookup str_eq id (values_of metric version [] rows) ≡ case_value metric version rows id
unfolding lookup
values_of-new metric version rows id = elim (Option-cases (case_value metric version rows id)) [
  | inl missing ↦ ground (arith, values_of-case_value metric version [] rows id)
  | inr (v, found) ↦ ground (arith, values_of-case_value metric version [] rows id)
]

-- The two lists of a metric's values have the same length, and their entries at one position are
-- the two runs' values of one case: no lookup fails, and each case for which both runs have a value
-- stands exactly once among them, and no other. A case's value is that of the last row of the run
-- which has the case, the metric and its version, and a number.
pub paired_values-Aligned :
    (metric version : String) (rows_a rows_b : List CaseValue)
    → (ids : List String) × (xs : List ℤ) × (ys : List ℤ) × (paired_values metric version rows_a
          rows_b
        ≡ (some xs, some ys))
      × Aligned (case_value metric version rows_a) (case_value metric version rows_b) ids xs ys
      × ((k : String)
          → count (λ j. str_eq j k) ids
            ≡ one_if (
                is_some (case_value metric version rows_a k)
                && is_some (case_value metric version rows_b k)))
unfolding paired_values common_cases
paired_values-Aligned metric version rows_a rows_b =
    let a : List (String × ℤ) = values_of metric version [] rows_a in
    let b : List (String × ℤ) = values_of metric version [] rows_b in
    let present =
      All-keep (λ (k : String). is_some (lookup str_eq k b))
        (λ (k : String). is_some (lookup str_eq k a) ≡ true) (keys str_eq a)
        (keys-lookup str_eq text_refl a) in
    let (xs, ys, done_a, done_b, aligned) =
      values_at-Aligned a b (common_cases a b) (All-sorted text_le _ _ present) in
    let in_a = values_of-new metric version rows_a in
    let in_b = values_of-new metric version rows_b in
    (
      common_cases a b,
      xs,
      ys,
      rw done_a (rw done_b refl),
      Aligned-same (λ k. lookup str_eq k a) (case_value metric version rows_a)
          (λ k. lookup str_eq k b) (case_value metric version rows_b) (common_cases a b) xs ys in_a
          in_b aligned,
      λ k.
          common_cases-both metric version rows_a b k
          ∙ ap (λ x. one_if (is_some x && is_some (lookup str_eq k b))) (in_a k)
          ∙ ap (λ y. one_if (is_some (case_value metric version rows_a k) && is_some y)) (in_b k),
    )
