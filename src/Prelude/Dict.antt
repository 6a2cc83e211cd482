-- ===== src/Prelude/Dict.antt =====
-- Python's dicts as association lists in insertion order, and `sorted` of their keys.
use mathlib.Core.Path.{◌≡◌, refl}
use mathlib.Core.Logic.{inl, inr}
use mathlib.Core.Bool.{Bool, true}
use mathlib.Core.Option.{Option, none, some}
use mathlib.Core.List.{List, [], ◌∷◌}
use native.Mathlib.Omega.{arith}
use rag_eval.Prelude.Tests.{if◌then◌else◌, is_some, Bool-cases}
use rag_eval.Prelude.Lists.{keep, All}

module _ {ℓ κ} {K : Type ℓ} {V : Type κ} (same : K → K → Bool) where
  -- `d.get(k)`
  unfoldable pub lookup : K → List (K × V) → Option V
  lookup k [] = none
  lookup k ((j, v) ∷ d) = if same j k then some v else lookup k d

  -- `d[k] = v`
  unfoldable pub assign : K → V → List (K × V) → List (K × V)
  assign k v [] = (k, v) ∷ []
  assign k v ((j, w) ∷ d) = if same j k then (j, v) ∷ d else (j, w) ∷ assign k v d

  abbrev pub keys : List (K × V) → List K
  keys [] = []
  keys ((k, v) ∷ d) = k ∷ keys d

  lookup_later :
      (j : K) (v : V) (d : List (K × V)) (ks : List K)
      → All (λ k. is_some (lookup k d) ≡ true) ks
      → All (λ k. is_some (lookup k ((j, v) ∷ d)) ≡ true) ks
  unfolding lookup
  lookup_later j v d [] h = tt
  lookup_later j v d (k ∷ ks) h = (ground (arith, h.0), lookup_later j v d ks h.1)

  -- Every key of a dict is found.
  pub keys-lookup :
      ((k : K) → same k k ≡ true)
      → (d : List (K × V)) → All (λ k. is_some (lookup k d) ≡ true) (keys d)
  unfolding lookup
  keys-lookup self [] = tt
  keys-lookup self ((j, v) ∷ d) =
      (rw (self j) refl, lookup_later j v d (keys d) (keys-lookup self d))

module _ {ℓ} {K : Type ℓ} (le : K → K → Bool) where
  unfoldable pub insert_key : K → List K → List K
  insert_key k [] = k ∷ []
  insert_key k (j ∷ ks) = let rest = insert_key k ks in if le k j then k ∷ j ∷ ks else j ∷ rest

  -- `sorted`, for an order given by a test.
  unfoldable pub sorted : List K → List K
  unfolding insert_key
  sorted [] = []
  sorted (k ∷ ks) = insert_key k (sorted ks)

  module _ {κ} (P : K → Type κ) where
    All-insert_key : (k : K) (ks : List K) → P k → All P ks → All P (insert_key k ks)
    unfolding insert_key
    All-insert_key k [] p h = (p, tt)
    All-insert_key k (j ∷ ks) p h = elim (Bool-cases (le k j)) [
      | inl e ↦ rw (e, insert_key) (p, h)
      | inr e ↦ rw (e, insert_key) (h.0, All-insert_key k ks p h.1)
    ]

    pub All-sorted : (ks : List K) → All P ks → All P (sorted ks)
    unfolding sorted
    All-sorted [] h = tt
    All-sorted (k ∷ ks) h = All-insert_key k (sorted ks) h.0 (All-sorted ks h.1)

module _ {ℓ} {K : Type ℓ} (q : K → Bool) where
  pub All-keep {κ} :
      (P : K → Type κ) (ks : List K) → All P ks → All (λ k. P k × (q k ≡ true)) (keep q ks)
  All-keep P [] h = tt
  All-keep P (k ∷ ks) h = elim (Bool-cases (q k)) [
    | inl e ↦ rw e ((h.0, e), All-keep P ks h.1)
    | inr e ↦ rw e (All-keep P ks h.1)
  ]
