-- ===== src/Metrics/Aggregation/Interpolation.antt =====
-- The interpolation between two neighbours in `_compute_percentile` of
-- src/rag_eval/metrics/aggregation.py.
use rag_eval.Prelude.{
  ℕ, zero, suc, ◌+◌, ◌-◌, ◌*◌, ◌/◌, ◌%◌, ◌≤◌, ◌<◌, ◌≡◌, List, ◌==◌, length, All, refl, sym, ap, ◌∙◌,
  arith, inl, inr, Bool-cases,
}
use rag_eval.Prelude.Int.{
  ℤ, pos, ◌+ℤ◌, ◌≤ℤ◌, +ℤ_parts, scale, scale_parts, eq_of_parts, pos_part, neg_part,
}
use rag_eval.Prelude.Sorting.{value_at, All-value_at, IsSorted, value_at_next}
use rag_eval.Metrics.Aggregation.{interpolated}

-- A weighted sum of two values.
blend : ℕ → ℕ → ℤ → ℤ → ℤ
blend s r a b = scale s a +ℤ scale r b

blend_shift : (s r : ℕ) (a b : ℤ) → a ≤ℤ b → blend (suc s) r a b ≤ℤ blend s (suc r) a b
unfolding blend
blend_shift s r a b h = omega (
  arith,
  h,
  scale_parts (suc s) a,
  scale_parts s a,
  scale_parts r b,
  scale_parts (suc r) b,
  +ℤ_parts (scale (suc s) a) (scale r b),
  +ℤ_parts (scale s a) (scale (suc r) b),
)

pub scale_le : (k : ℕ) (a b : ℤ) → a ≤ℤ b → scale k a ≤ℤ scale k b
scale_le zero a b h = omega (arith, scale_parts 0 a, scale_parts 0 b)
scale_le (suc k) a b h = omega (
  arith,
  h,
  scale_le k a b h,
  scale_parts (suc k) a,
  scale_parts k a,
  scale_parts (suc k) b,
  scale_parts k b,
)

blend_ge : (s r : ℕ) (lo a b : ℤ) → lo ≤ℤ a → lo ≤ℤ b → scale (s + r) lo ≤ℤ blend s r a b
unfolding blend
blend_ge s r lo a b ha hb = omega (
  arith,
  scale_le s lo a ha,
  scale_le r lo b hb,
  scale_parts (s + r) lo,
  scale_parts s lo,
  scale_parts r lo,
  +ℤ_parts (scale s a) (scale r b),
)

blend_le : (s r : ℕ) (hi a b : ℤ) → a ≤ℤ hi → b ≤ℤ hi → blend s r a b ≤ℤ scale (s + r) hi
unfolding blend
blend_le s r hi a b ha hb = omega (
  arith,
  scale_le s a hi ha,
  scale_le r b hi hb,
  scale_parts (s + r) hi,
  scale_parts s hi,
  scale_parts r hi,
  +ℤ_parts (scale s a) (scale r b),
)

pub le_cong : (a b c d : ℤ) → a ≡ b → c ≡ d → b ≤ℤ d → a ≤ℤ c
le_cong a b c d p q h = omega (arith, ap pos_part p, ap neg_part p, ap pos_part q, ap neg_part q, h)

-- A weighted sum of which one value weighs nothing.
blend_whole : (r : ℕ) (a b : ℤ) → r ≡ 0 → scale 100 a ≡ blend (100 - r) r a b
unfolding blend
blend_whole zero a b e =
    eq_of_parts (scale 100 a) (scale 100 a +ℤ scale 0 b)
      (omega (arith, scale_parts 0 b, +ℤ_parts (scale 100 a) (scale 0 b)))
blend_whole (suc r) a b e = absurd (omega arith)

blend_turn : (a b c : ℤ) → blend 0 100 a b ≡ blend 100 0 b c
unfolding blend
blend_turn a b c = eq_of_parts (scale 0 a +ℤ scale 100 b) (scale 100 b +ℤ scale 0 c) (
    omega (
      arith,
      scale_parts 0 a,
      scale_parts 0 c,
      +ℤ_parts (scale 0 a) (scale 100 b),
      +ℤ_parts (scale 100 b) (scale 0 c),
    ))

-- Without rounding.
abbrev pub exact : List ℤ → ℕ → ℤ
exact xs k = interpolated (λ x. x) xs k

-- The value at a position is a weighted sum of two neighbours, also where the second weighs nothing.
interpolated-blend :
    (xs : List ℤ) (k f r : ℕ)
    → k ≡ 100 * f + r
    → r < 100
    → exact xs k ≡ blend (100 - r) r (value_at xs f) (value_at xs (f + 1))
unfolding interpolated blend
interpolated-blend xs k f r e h =
    let step : k / 100 ≡ f = omega arith in
    let rest : k % 100 ≡ r = omega arith in
    let same : blend (100 - k % 100) (k % 100) (value_at xs (k / 100)) (value_at xs (k / 100 + 1))
        ≡ blend (100 - r) r (value_at xs f) (value_at xs (f + 1)) =
      ap (λ q. blend (100 - q) q (value_at xs (k / 100)) (value_at xs (k / 100 + 1))) rest
      ∙ ap (λ g. blend (100 - r) r (value_at xs g) (value_at xs (g + 1))) step in
    elim (Bool-cases (k % 100 == 0)) [
      | inl whole ↦
          let none_left : k % 100 ≡ 0 = ground arith in
          let e' =
            blend_whole (k % 100) (value_at xs (k / 100)) (value_at xs (k / 100 + 1)) none_left in
          rw (whole, interpolated) (e' ∙ same)
      | inr part ↦ rw (part, interpolated) same
    ]

interpolated_step :
    (xs : List ℤ) (k : ℕ)
    → IsSorted xs
    → suc k ≤ 100 * (length xs - 1)
    → exact xs k ≤ℤ exact xs (suc k)
interpolated_step xs k sorted h =
    let f : ℕ = k / 100 in
    let r : ℕ = k % 100 in
    let a : ℤ = value_at xs f in
    let b : ℤ = value_at xs (f + 1) in
    let rises : a ≤ℤ b =
      let next : suc f ≡ f + 1 = omega arith in
      le_cong a a b (value_at xs (suc f)) refl (ap (value_at xs) (sym next))
        (value_at_next xs f sorted (omega (arith, h))) in
    elim (Bool-cases (r == 99)) [
      | inl turn ↦
          let last : r ≡ 99 = ground arith in
          le_cong (exact xs k) (blend 1 99 a b) (exact xs (suc k)) (blend 0 100 a b)
            (interpolated-blend xs k f 99 (omega (arith, last)) (omega arith))
            (interpolated-blend xs (suc k) (f + 1) 0 (omega (arith, last)) (omega arith)
              ∙ sym (blend_turn a b (value_at xs (f + 1 + 1))))
            (blend_shift 0 99 a b rises)
      | inr on ↦
          let below : r < 99 = ground arith in
          let s : ℕ = 100 - suc r in
          let weight : 100 - r ≡ suc s = omega (arith, below) in
          le_cong (exact xs k) (blend (suc s) r a b) (exact xs (suc k)) (blend s (suc r) a b)
            (interpolated-blend xs k f r (omega arith) (omega arith)
              ∙ ap (λ w. blend w r a b) weight)
            (interpolated-blend xs (suc k) f (suc r) (omega arith) (omega (arith, below)))
            (blend_shift s r a b rises)
    ]

pub interpolated_le :
    (xs : List ℤ) (k d : ℕ)
    → IsSorted xs
    → k + d ≤ 100 * (length xs - 1)
    → exact xs k ≤ℤ exact xs (k + d)
interpolated_le xs k zero sorted h =
    let e : k + 0 ≡ k = omega arith in
    le_cong (exact xs k) (exact xs k) (exact xs (k + 0)) (exact xs k) refl (ap (exact xs) e)
      (omega arith)
interpolated_le xs k (suc d) sorted h =
    let e : k + suc d ≡ suc (k + d) = omega arith in
    let below = interpolated_le xs k d sorted (omega (arith, h)) in
    let next = interpolated_step xs (k + d) sorted (omega (arith, h)) in
    le_cong (exact xs k) (exact xs k) (exact xs (k + suc d)) (exact xs (suc (k + d))) refl
      (ap (exact xs) e) (omega (arith, below, next))

pub interpolated_between :
    (xs : List ℤ) (k : ℕ) (lo hi : ℤ)
    → All (λ (x : ℤ). (lo ≤ℤ x) × (x ≤ℤ hi)) xs
    → 0 < length xs
    → k ≤ 100 * (length xs - 1)
    → (scale 100 lo ≤ℤ exact xs k) × (exact xs k ≤ℤ scale 100 hi)
unfolding interpolated blend
interpolated_between xs k lo hi all some_value h =
    let within : ℤ → Type 0 = λ x. (lo ≤ℤ x) × (x ≤ℤ hi) in
    let a = All-value_at within xs (k / 100) all (omega (arith, h)) in
    elim (Bool-cases (k % 100 == 0)) [
      | inl whole ↦
          rw (whole, interpolated)
            (
              scale_le 100 lo (value_at xs (k / 100)) a.0,
              scale_le 100 (value_at xs (k / 100)) hi a.1,
            )
      | inr part ↦
          let r : ℕ = k % 100 in
          let b = All-value_at within xs (k / 100 + 1) all (ground (arith, h, part)) in
          let x : ℤ = value_at xs (k / 100) in
          let y : ℤ = value_at xs (k / 100 + 1) in
          let hundred : 100 ≡ 100 - r + r = omega arith in
          rw (part, interpolated)
            (
              le_cong (scale 100 lo) (scale (100 - r + r) lo) (blend (100 - r) r x y)
                  (blend (100 - r) r x y) (ap (λ w. scale w lo) hundred) refl
                  (blend_ge (100 - r) r lo x y a.0 b.0),
              le_cong (blend (100 - r) r x y) (blend (100 - r) r x y) (scale 100 hi)
                  (scale (100 - r + r) hi) refl (ap (λ w. scale w hi) hundred)
                  (blend_le (100 - r) r hi x y a.1 b.1),
            )
    ]

-- A value is off by no more than the rounding of a value is.
pub interpolated-exact :
    (round : ℤ → ℤ) (half : ℕ) (xs : List ℤ) (k : ℕ)
    → ((x : ℤ) → (x ≤ℤ round x +ℤ pos half) × (round x ≤ℤ x +ℤ pos half))
    → (exact xs k ≤ℤ interpolated round xs k +ℤ pos half)
      × (interpolated round xs k ≤ℤ exact xs k +ℤ pos half)
unfolding interpolated blend
interpolated-exact round half xs k close = elim (Bool-cases (k % 100 == 0)) [
  | inl whole ↦
      let v : ℤ = scale 100 (value_at xs (k / 100)) in
      let near : v ≤ℤ v +ℤ pos half = omega (arith, +ℤ_parts v (pos half)) in
      rw (whole, interpolated) (near, near)
  | inr part ↦
      rw (part, interpolated)
        (close
          (blend (100 - k % 100) (k % 100) (value_at xs (k / 100)) (value_at xs (k / 100 + 1))))
]
