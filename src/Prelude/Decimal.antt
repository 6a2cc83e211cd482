-- ===== src/Prelude/Decimal.antt =====
-- Python's `str` of a natural number.
use Prim.Native.Nat.{ℕ, zero, suc, ◌/◌, ◌%◌, ◌<◌}
use Prim.Native.String
use Prim.Native.String.{String}
use mathlib.Core.Option.{none, some}
use mathlib.Core.List.{[], ◌∷◌}
use mathlib.Core.Path.{◌≡◌, refl, ap}
use mathlib.Core.Logic.{inl, inr}
use native.Mathlib.Omega.{arith}
use rag_eval.Prelude.Tests.{◌==◌, if◌then◌else◌, Bool-cases}
use rag_eval.Prelude.Lists.{get_elem?}

digit : ℕ → String
digit d =
    elim (get_elem? {A = String} ("0" ∷ "1" ∷ "2" ∷ "3" ∷ "4" ∷ "5" ∷ "6" ∷ "7" ∷ "8" ∷ "9" ∷ [])
      d) [ none ↦ "" | some text ↦ text ]

-- The decimal digits of a number, on fuel above their number.
decimal : ℕ → ℕ → String
unfolding digit
decimal zero n = ""
decimal (suc fuel) n =
    let more = decimal fuel (n / 10) in
    if n / 10 == 0 then digit (n % 10) else String.◌++◌ more (digit (n % 10))

-- `str(n)`
unfoldable pub index_text : ℕ → String
unfolding decimal
index_text n = decimal (suc n) n

-- Any fuel above a number gives the same digits.
decimal_fuel : (f g n : ℕ) → n < f → n < g → decimal f n ≡ decimal g n
unfolding decimal
decimal_fuel zero g n h k = absurd (omega arith)
decimal_fuel (suc f) zero n h k = absurd (omega arith)
decimal_fuel (suc f) (suc g) n h k = elim (Bool-cases (n / 10 == 0)) [
  | inl last ↦ rw last refl
  | inr more ↦ rw more (
      ap (λ s. String.◌++◌ s (digit (n % 10)))
        (decimal_fuel f g (n / 10) (ground arith) (ground arith)))
]
