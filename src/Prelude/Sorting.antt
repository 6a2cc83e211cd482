-- ===== src/Prelude/Sorting.antt =====
-- Sorted lists of integers: what the source has of Python's `list.sort` and `sorted`.
use Prim.Native.Nat.{ℕ, zero, suc, ◌<◌}
use mathlib.Core.Path.{◌≡◌, refl}
use mathlib.Core.Logic.{inl, inr}
use mathlib.Core.List.{List, [], ◌∷◌}
use native.Mathlib.Omega.{arith}
use rag_eval.Prelude.Tests.{if◌then◌else◌, Bool-cases}
use rag_eval.Prelude.Lists.{length, All}
use rag_eval.Prelude.Int.{ℤ, pos, ltb_ℤ, ◌≤ℤ◌}

-- `values[i]`, for an i in range.
unfoldable pub value_at : List ℤ → ℕ → ℤ
value_at [] i = pos 0
value_at (x ∷ xs) zero = x
value_at (x ∷ xs) (suc i) = value_at xs i

-- `list.sort`
unfoldable pub insert : ℤ → List ℤ → List ℤ
insert x [] = x ∷ []
insert x (y ∷ ys) = let rest = insert x ys in if ltb_ℤ y x then y ∷ rest else x ∷ y ∷ ys

unfoldable pub sort : List ℤ → List ℤ
sort [] = []
sort (x ∷ xs) = insert x (sort xs)

length-insert : (x : ℤ) (xs : List ℤ) → length (insert x xs) ≡ suc (length xs)
unfolding insert
length-insert x [] = refl
length-insert x (y ∷ ys) = ground (arith, length-insert x ys)

pub length-sort : (xs : List ℤ) → length (sort xs) ≡ length xs
unfolding sort
length-sort [] = refl
length-sort (x ∷ xs) = omega (arith, length-insert x (sort xs), length-sort xs)

module _ {ℓ} (P : ℤ → Type ℓ) where
  All-insert : (x : ℤ) (xs : List ℤ) → P x → All P xs → All P (insert x xs)
  unfolding insert
  All-insert x [] e h = (e, tt)
  All-insert x (y ∷ ys) e h = elim (Bool-cases (ltb_ℤ y x)) [
    | inl t ↦ rw (t, insert) (h.0, All-insert x ys e h.1)
    | inr t ↦ rw (t, insert) (e, h)
  ]

  pub All-sort : (xs : List ℤ) → All P xs → All P (sort xs)
  unfolding sort
  All-sort [] h = tt
  All-sort (x ∷ xs) h = All-insert x (sort xs) h.0 (All-sort xs h.1)

  pub All-value_at : (xs : List ℤ) (i : ℕ) → All P xs → i < length xs → P (value_at xs i)
  unfolding value_at
  All-value_at [] i h l = absurd (omega arith)
  All-value_at (x ∷ xs) zero h l = h.0
  All-value_at (x ∷ xs) (suc i) h l = All-value_at xs i h.1 (omega arith)

abbrev pub IsSorted : List ℤ → Type 0
IsSorted [] = Unit
IsSorted (x ∷ xs) = All (λ y. x ≤ℤ y) xs × IsSorted xs

at_least-All : (x y : ℤ) (xs : List ℤ) → x ≤ℤ y → All (λ z. y ≤ℤ z) xs → All (λ z. x ≤ℤ z) xs
at_least-All x y [] h k = tt
at_least-All x y (z ∷ xs) h k = (omega (arith, h, k.0), at_least-All x y xs h k.1)

insert-IsSorted : (x : ℤ) (xs : List ℤ) → IsSorted xs → IsSorted (insert x xs)
unfolding insert
insert-IsSorted x [] h = (tt, tt)
insert-IsSorted x (y ∷ ys) h = elim (Bool-cases (ltb_ℤ y x)) [
  | inl t ↦
      rw (t, insert)
        (All-insert (λ z. y ≤ℤ z) x ys (ground (arith, t)) h.0, insert-IsSorted x ys h.1)
  | inr t ↦
      let le : x ≤ℤ y = ground (arith, t) in rw (t, insert) ((le, at_least-All x y ys le h.0), h)
]

pub sort-IsSorted : (xs : List ℤ) → IsSorted (sort xs)
unfolding sort
sort-IsSorted [] = tt
sort-IsSorted (x ∷ xs) = insert-IsSorted x (sort xs) (sort-IsSorted xs)

pub value_at_next :
    (xs : List ℤ) (i : ℕ) → IsSorted xs → suc i < length xs → value_at xs i ≤ℤ value_at xs (suc i)
unfolding value_at
value_at_next [] i h l = absurd (omega arith)
value_at_next (x ∷ xs) zero h l = All-value_at (λ y. x ≤ℤ y) xs 0 h.0 (omega arith)
value_at_next (x ∷ xs) (suc i) h l = value_at_next xs i h.1 (omega arith)
