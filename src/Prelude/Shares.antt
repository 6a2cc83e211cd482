-- ===== src/Prelude/Shares.antt =====
-- Quotients as pairs of a numerator and a denominator, compared by cross-multiplication.
use Prim.Native.Nat.{ℕ, ◌*◌, ◌≤◌, ◌<◌}
use native.Mathlib.Nat.{mul-le-mul_right, le_of_mul-le-mul_right}
use native.Mathlib.Omega.{arith}
use rag_eval.Prelude.Tests.{ltb, if◌then◌else◌}

abbrev pub Share : Type 0
Share = ℕ × ℕ

abbrev pub AtMost : Share → Share → Type 0
AtMost a b = a.0 * b.1 ≤ b.0 * a.1

-- Python's `min` of two numbers, the first where they are equal.
unfoldable pub min_share : Share → Share → Share
min_share a b = if ltb (b.0 * a.1) (a.0 * b.1) then b else a

pub AtMost-trans : (a b c : Share) → 0 < b.1 → AtMost a b → AtMost b c → AtMost a c
AtMost-trans (x, p) (y, q) (z, r) positive h k =
    le_of_mul-le-mul_right {k = q} (grind (arith, mul-le-mul_right r h, mul-le-mul_right p k))
      positive

module _ (a b : Share) where
  pub min_share-left : AtMost (min_share a b) a
  unfolding min_share
  min_share-left = ground arith

  pub min_share-right : AtMost (min_share a b) b
  unfolding min_share
  min_share-right = ground arith

  -- What is below both is below the smaller one.
  pub min_share-above : (c : Share) → AtMost c a → AtMost c b → AtMost c (min_share a b)
  unfolding min_share
  min_share-above c h k = ground arith

  pub min_share-positive : 0 < a.1 → 0 < b.1 → 0 < (min_share a b).1
  unfolding min_share
  min_share-positive h k = ground arith
