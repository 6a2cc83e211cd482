-- ===== src/Reporting/Stats/Holm.antt =====
-- `holm_bonferroni` of src/rag_eval/reporting/stats.py.
use rag_eval.Prelude.{
  ℕ, zero, suc, ◌+◌, ◌-◌, ◌*◌, ◌≤◌, ◌<◌, ◌≡◌, List, [], ◌∷◌, ◌==◌, ltb, max, min, map, length, refl,
  ap, ◌∙◌, arith, if◌then◌else◌, get_elem?, Option, none, some, inl, inr, Bool-cases,
}
use native.Mathlib.Nat.{mul-le-mul_right}
use rag_eval.Reporting.Stats.{
  insert_indexed, sort_indexed, holm_steps, written, positions, holm_bonferroni,
}

-- The value that a list of pairs has for an index.
unfoldable pub find : ℕ → List (ℕ × ℕ) → Option ℕ
find i [] = none
find i ((j, v) ∷ xs) = if j == i then some v else find i xs

find-insert_indexed :
    (i j v : ℕ) (xs : List (ℕ × ℕ))
    → find j xs ≡ none
    → find i (insert_indexed (j, v) xs) ≡ (if j == i then some v else find i xs)
unfolding find insert_indexed
find-insert_indexed i j v [] h = refl
find-insert_indexed i j v ((k, w) ∷ xs) h = ground (arith, find-insert_indexed i j v xs)

-- Sorting keeps the value of each index.
find-sort_indexed :
    (k i : ℕ) (ps : List ℕ)
    → find i (sort_indexed k ps) ≡ (if ltb i k then none else get_elem? ps (i - k))
unfolding find sort_indexed
find-sort_indexed k i [] = ground arith
find-sort_indexed k i (p ∷ ps) =
    let inserted =
      find-insert_indexed i k p (sort_indexed (suc k) ps)
        (ground (arith, find-sort_indexed (suc k) k ps)) in
    let later = find-sort_indexed (suc k) i ps in
    elim (Bool-cases (k == i)) [
      | inl e ↦
          let here : get_elem? (p ∷ ps) (i - k) ≡ some p =
            let e : i - k ≡ 0 = ground arith in ap (get_elem? (p ∷ ps)) e in
          ground (arith, inserted, here)
      | inr e ↦ elim (Bool-cases (ltb i k)) [
        | inl below ↦ ground (arith, inserted, later)
        | inr above ↦
            let there : get_elem? (p ∷ ps) (i - k) ≡ get_elem? ps (i - suc k) =
              let e : i - k ≡ suc (i - suc k) = ground arith in ap (get_elem? (p ∷ ps)) e in
            ground (arith, inserted, later, there)
      ]
    ]

length-insert_indexed :
    (x : ℕ × ℕ) (xs : List (ℕ × ℕ)) → length (insert_indexed x xs) ≡ suc (length xs)
unfolding insert_indexed
length-insert_indexed x [] = refl
length-insert_indexed x (y ∷ ys) = ground (arith, length-insert_indexed x ys)

pub length-sort_indexed : (k : ℕ) (ps : List ℕ) → length (sort_indexed k ps) ≡ length ps
unfolding sort_indexed
length-sort_indexed k [] = refl
length-sort_indexed k (p ∷ ps) =
    omega (
      arith,
      length-insert_indexed (k, p) (sort_indexed (suc k) ps),
      length-sort_indexed (suc k) ps,
    )

at_least_once : (left v : ℕ) → 0 < left → v ≤ left * v
at_least_once left v h = omega (arith, mul-le-mul_right {m = 1} {n = left} v h)

written_bounds :
    (one left running i v : ℕ) (xs : List (ℕ × ℕ))
    → length xs ≤ left
    → running ≤ one
    → find i xs ≡ some v
    → v ≤ one
    → let adjusted = written i (holm_steps one left running xs) in
      (v ≤ adjusted) × (adjusted ≤ one) × (running ≤ adjusted)
unfolding find written holm_steps
written_bounds one left running i v [] l r f h = absurd (ground arith)
written_bounds one left running i v ((j, w) ∷ xs) l r f h =
    let now : ℕ = max running (min one (left * w)) in
    elim (Bool-cases (j == i)) [
      | inl e ↦ ground (arith, at_least_once left w)
      | inr e ↦
          ground
            (arith, written_bounds one (left - 1) now i v xs (omega (arith, l)) (omega (arith, r)))
    ]

pub get_elem?-positions {ℓ} :
    {A : Type ℓ} (f : ℕ → A) (k i : ℕ) (ps : List ℕ) (v : ℕ)
    → get_elem? ps i ≡ some v
    → get_elem? (map f (positions k ps)) i ≡ some (f (k + i))
get_elem?-positions f k i [] v h = absurd (ground arith)
get_elem?-positions f k zero (p ∷ ps) v h = ap (λ j. some (f j)) (omega arith)
get_elem?-positions f k (suc i) (p ∷ ps) v h =
    get_elem?-positions f (suc k) i ps v h ∙ ap (λ j. some (f j)) (omega arith)

-- A p-value of the list is found among the sorted ones.
pub find_given :
    (ps : List ℕ) (i v : ℕ) → get_elem? ps i ≡ some v → find i (sort_indexed 0 ps) ≡ some v
find_given ps i v h =
    let e : i - 0 ≡ i = omega arith in
    let same : get_elem? ps (i - 0) ≡ get_elem? ps i = ap (get_elem? ps) e in
    ground (arith, find-sort_indexed 0 i ps, same)

-- What is written for an index stands at its place.
pub at_place {ℓ} :
    {A : Type ℓ} (f : ℕ → A) (i : ℕ) (ps : List ℕ) (v : ℕ)
    → get_elem? ps i ≡ some v
    → get_elem? (map f (positions 0 ps)) i ≡ some (f i)
at_place f i ps v h =
    get_elem?-positions f 0 i ps v h ∙ (let e : 0 + i ≡ i = omega arith in ap (λ j. some (f j)) e)

-- Holm's correction gives every p-value that is at most 1 an adjusted value, at the same place of
-- the list, which is at least the p-value and at most 1.
pub holm_bonferroni_bounds :
    (one : ℕ) (ps : List ℕ) (i v : ℕ)
    → get_elem? ps i ≡ some v
    → v ≤ one
    → (adjusted : ℕ) × (get_elem? (holm_bonferroni one ps) i ≡ some adjusted)
      × (v ≤ adjusted)
      × (adjusted ≤ one)
unfolding holm_bonferroni
holm_bonferroni_bounds one ps i v h le =
    let sorted : List (ℕ × ℕ) = sort_indexed 0 ps in
    let steps : List (ℕ × ℕ) = holm_steps one (length ps) 0 sorted in
    let bounds =
      written_bounds one (length ps) 0 i v sorted (omega (arith, length-sort_indexed 0 ps))
        (omega arith) (find_given ps i v h) le in
    (written i steps, at_place (λ j. written j steps) i ps v h, bounds.0, bounds.1)
