-- ===== src/Prelude/Occurrences.antt =====
-- How often a key occurs in a dict, and in its sorted keys.
use Prim.Native.Nat.{ℕ, ◌+◌}
use mathlib.Core.Path.{◌≡◌, refl, ap, sym}
use mathlib.Core.Bool.{Bool, true, false, ◌||◌}
use mathlib.Core.List.{List, [], ◌∷◌}
use native.Mathlib.Omega.{arith}
use rag_eval.Prelude.Tests.{if◌then◌else◌, is_some}
use rag_eval.Prelude.Lists.{keep}
use rag_eval.Prelude.Dict.{lookup, assign, keys, insert_key, sorted}

abbrev pub one_if : Bool → ℕ
one_if true = 1
one_if false = 0

module _ {ℓ} {K : Type ℓ} (p : K → Bool) where
  unfoldable pub count : List K → ℕ
  count [] = 0
  count (k ∷ ks) = one_if (p k) + count ks

  count-insert_key :
      (le : K → K → Bool) (k : K) (ks : List K)
      → count (insert_key le k ks) ≡ one_if (p k) + count ks
  unfolding insert_key count
  count-insert_key le k [] = refl
  count-insert_key le k (j ∷ ks) = ground (arith, count-insert_key le k ks)

  pub count-sorted : (le : K → K → Bool) (ks : List K) → count (sorted le ks) ≡ count ks
  unfolding sorted count
  count-sorted le [] = refl
  count-sorted le (k ∷ ks) =
      ground (arith, count-insert_key le k (sorted le ks), count-sorted le ks)

  pub count-keep :
      (q : K → Bool) (c : Bool) (ks : List K)
      → ((k : K) → p k ≡ true → q k ≡ c)
      → count (keep q ks) ≡ (if c then count ks else 0)
  unfolding count
  count-keep q c [] h = ground arith
  count-keep q c (k ∷ ks) h = ground (arith, h k, count-keep q c ks h)

same_trans {ℓ} :
    {K : Type ℓ} (same : K → K → Bool) (sound : (j k : K) → same j k ≡ true → j ≡ k) (i j k : K)
    → same i j ≡ true
    → same j k ≡ same i k
same_trans same sound i j k e = ap (λ x. same x k) (sym (sound i j e))

module _ {ℓ κ} {K : Type ℓ} {V : Type κ} (same : K → K → Bool) (self : (k : K) → same k k ≡ true)
    (sound : (j k : K) → same j k ≡ true → j ≡ k) where
  count-assign :
      (k j : K) (v : V) (d : List (K × V))
      → count (λ i. same i k) (keys same (assign same j v d)) ≡ (
          if is_some (lookup same j d)
          then count (λ i. same i k) (keys same d)
          else count (λ i. same i k) (keys same d) + one_if (same j k))
  unfolding assign lookup count
  count-assign k j v [] = ground arith
  count-assign k j v ((i, w) ∷ d) = ground (arith, count-assign k j v d)

  lookup-assign :
      (k j : K) (v : V) (d : List (K × V))
      → is_some (lookup same k (assign same j v d)) ≡ (is_some (lookup same k d) || same j k)
  unfolding assign lookup
  lookup-assign k j v [] = ground arith
  lookup-assign k j v ((i, w) ∷ d) =
      ground (arith, same_trans same sound i j k, lookup-assign k j v d)

  found_as : (j k : K) (d : List (K × V)) → same j k ≡ true → lookup same k d ≡ lookup same j d
  found_as j k d e = ap (λ x. lookup same x d) (sym (sound j k e))

  -- Assigning keeps that every key of a dict occurs once in it.
  pub assign-occurs_once :
      (j : K) (v : V) (d : List (K × V))
      → ((k : K) → count (λ i. same i k) (keys same d) ≡ one_if (is_some (lookup same k d)))
      → (k : K)
      → count (λ i. same i k) (keys same (assign same j v d))
        ≡ one_if (is_some (lookup same k (assign same j v d)))
  assign-occurs_once j v d once k =
      ground (arith, count-assign k j v d, lookup-assign k j v d, once k, found_as j k d)
