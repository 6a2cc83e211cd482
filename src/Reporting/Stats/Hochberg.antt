-- ===== src/Reporting/Stats/Hochberg.antt =====
-- `benjamini_hochberg` of src/rag_eval/reporting/stats.py, and how it relates to `holm_bonferroni`.
use rag_eval.Prelude.{
  ℕ, suc, ◌+◌, ◌-◌, ◌*◌, ◌≤◌, ◌<◌, ◌≡◌, List, [], ◌∷◌, ◌==◌, ltb, max, min, map, length, arith,
  if◌then◌else◌, get_elem?, some, inl, inr, Bool-cases, All, subst,
}
use native.Mathlib.Nat.{mul-le-mul, mul-le-mul_right}
use rag_eval.Prelude.Shares.{
  Share, AtMost, min_share, AtMost-trans, min_share-left, min_share-right, min_share-above,
  min_share-positive,
}
use rag_eval.Reporting.Stats.{
  insert_indexed, sort_indexed, holm_steps, written, positions, holm_bonferroni,
}
use rag_eval.Reporting.Stats.Holm.{
  find, find_given, length-sort_indexed, at_place, holm_bonferroni_bounds,
}

-- The loop of `benjamini_hochberg` down to a rank, of `n` values: `running`, and the index and the
-- adjusted value of each step.
unfoldable pub hochberg_steps : ℕ → ℕ → ℕ → List (ℕ × ℕ) → Share × List (ℕ × Share)
hochberg_steps one n rank [] = ((one, 1), [])
hochberg_steps one n rank ((index, value) ∷ rest) =
    let later = hochberg_steps one n (suc rank) rest in
    let running = min_share later.0 (value * n, suc rank) in
    (running, (index, min_share (one, 1) running) ∷ later.1)

-- `adjusted[index]` after the loop.
unfoldable pub share_at : ℕ → ℕ → List (ℕ × Share) → Share
share_at one i [] = (one, 1)
share_at one i ((j, v) ∷ steps) = if j == i then v else share_at one i steps

-- `benjamini_hochberg`
unfoldable pub benjamini_hochberg : ℕ → List ℕ → List Share
benjamini_hochberg one ps =
    let steps = (hochberg_steps one (length ps) 0 (sort_indexed 0 ps)).1 in
    map (λ i. share_at one i steps) (positions 0 ps)

-- No later value is below an earlier one.
abbrev IsRising : List (ℕ × ℕ) → Type 0
IsRising [] = Unit
IsRising (x ∷ xs) = All (λ y. x.1 ≤ y.1) xs × IsRising xs

All-above : (v w : ℕ) (xs : List (ℕ × ℕ)) → v ≤ w → All (λ x. w ≤ x.1) xs → All (λ x. v ≤ x.1) xs
All-above v w [] h k = tt
All-above v w (x ∷ xs) h k = (omega (arith, k.0), All-above v w xs h k.1)

All-insert_indexed :
    (v : ℕ) (x : ℕ × ℕ) (xs : List (ℕ × ℕ))
    → v ≤ x.1
    → All (λ y. v ≤ y.1) xs
    → All (λ y. v ≤ y.1) (insert_indexed x xs)
unfolding insert_indexed
All-insert_indexed v x [] h k = (h, tt)
All-insert_indexed v x (y ∷ ys) h k = elim (Bool-cases (ltb y.1 x.1)) [
  | inl later ↦ rw (later, insert_indexed) (k.0, All-insert_indexed v x ys h k.1)
  | inr here ↦ rw (here, insert_indexed) (h, k)
]

insert_indexed-IsRising :
    (x : ℕ × ℕ) (xs : List (ℕ × ℕ)) → IsRising xs → IsRising (insert_indexed x xs)
unfolding insert_indexed
insert_indexed-IsRising x [] h = (tt, tt)
insert_indexed-IsRising x (y ∷ ys) h = elim (Bool-cases (ltb y.1 x.1)) [
  | inl later ↦
      rw (later, insert_indexed)
        (All-insert_indexed y.1 x ys (ground arith) h.0, insert_indexed-IsRising x ys h.1)
  | inr here ↦
      let le : x.1 ≤ y.1 = ground arith in
      rw (here, insert_indexed) ((le, All-above x.1 y.1 ys le h.0), h)
]

sort_indexed-IsRising : (k : ℕ) (ps : List ℕ) → IsRising (sort_indexed k ps)
unfolding sort_indexed
sort_indexed-IsRising k [] = tt
sort_indexed-IsRising k (p ∷ ps) =
    insert_indexed-IsRising (k, p) (sort_indexed (suc k) ps) (sort_indexed-IsRising (suc k) ps)

scaled_above : (v w n rank : ℕ) → v ≤ w → rank ≤ n → v * rank ≤ w * n * 1
scaled_above v w n rank h k = omega (arith, mul-le-mul h k)

-- What is below all later values is below `running`.
running_above :
    (one n rank v : ℕ) (xs : List (ℕ × ℕ))
    → rank + length xs ≡ n
    → v ≤ one
    → All (λ x. v ≤ x.1) xs
    → let running = (hochberg_steps one n rank xs).0 in (0 < running.1) × AtMost (v, 1) running
unfolding hochberg_steps
running_above one n rank v [] l le h = (omega arith, omega arith)
running_above one n rank v ((j, w) ∷ xs) l le h =
    let (positive, above) = running_above one n (suc rank) v xs (omega (arith, l)) le h.1 in
    let later : Share = (hochberg_steps one n (suc rank) xs).0 in
    (
      min_share-positive later (w * n, suc rank) positive (omega arith),
      min_share-above later (w * n, suc rank) (v, 1) above
          (scaled_above v w n (suc rank) h.0 (omega (arith, l))),
    )

-- The factor of Holm's correction is not below that of Benjamini and Hochberg.
factor_le : (w n rank left : ℕ) → rank + left ≡ n → 0 < left → w * n * 1 ≤ left * w * suc rank
factor_le w n rank left l h =
    let small : n ≤ left * suc rank = grind (arith, mul-le-mul_right {m = 1} {n = left} rank h) in
    grind (arith, mul-le-mul_right w small)

AtMost-holm :
    (s : Share) (one r m : ℕ)
    → AtMost s (one, 1)
    → AtMost s (m, 1)
    → AtMost s (max r (min one m), 1)
AtMost-holm s one r m h k =
    let le : min one m ≤ max r (min one m) = ground arith in
    let below : s.0 * 1 ≤ min one m * s.1 = ground arith in omega (arith, mul-le-mul_right s.1 le)

share_bounds :
    (one n rank left running i v : ℕ) (xs : List (ℕ × ℕ))
    → rank + length xs ≡ n
    → left ≡ length xs
    → IsRising xs
    → find i xs ≡ some v
    → v ≤ one
    → let s = share_at one i (hochberg_steps one n rank xs).1 in
      let h = written i (holm_steps one left running xs) in
      (0 < s.1) × AtMost (v, 1) s × AtMost s (h, 1)
unfolding find written holm_steps share_at hochberg_steps
share_bounds one n rank left running i v [] l m rising f le = absurd (ground arith)
share_bounds one n rank left running i v ((j, w) ∷ xs) l m rising f le =
    elim (Bool-cases (j == i)) [
      | inl e ↦
          let same : w ≡ v = ground arith in
          let now : Share = (hochberg_steps one n rank ((j, w) ∷ xs)).0 in
          let later : Share = (hochberg_steps one n (suc rank) xs).0 in
          let (positive, above) =
            running_above one n rank w ((j, w) ∷ xs) l (omega arith) (omega arith, rising.0) in
          let adjusted : Share = min_share (one, 1) now in
          let bound : AtMost adjusted (left * w, 1) =
            AtMost-trans adjusted now (left * w, 1) positive (min_share-right (one, 1) now)
              (AtMost-trans now (w * n, suc rank) (left * w, 1) (omega arith)
                (min_share-right later (w * n, suc rank))
                (factor_le w n rank left (omega (arith, l)) (omega arith))) in
          rw e (
            min_share-positive (one, 1) now (omega arith) positive,
            min_share-above (one, 1) now (v, 1) (omega arith)
                (subst (λ x. AtMost (x, 1) now) same above),
            AtMost-holm adjusted one running (left * w) (min_share-left (one, 1) now) bound,
          )
      | inr e ↦ rw e (
          share_bounds one n (suc rank) (left - 1) (max running (min one (left * w))) i v xs
            (omega (arith, l)) (omega arith) rising.1 (ground arith) le)
    ]

-- For every p-value that is at most 1, the correction of Benjamini and Hochberg at its place lies
-- between it and Holm's correction, and that is at most 1.
pub benjamini_hochberg-le-holm_bonferroni :
    (one : ℕ) (ps : List ℕ) (i v : ℕ)
    → get_elem? ps i ≡ some v
    → v ≤ one
    → (s : Share) × (h : ℕ) × (get_elem? (benjamini_hochberg one ps) i ≡ some s)
      × (get_elem? (holm_bonferroni one ps) i ≡ some h)
      × (0 < s.1)
      × AtMost (v, 1) s
      × AtMost s (h, 1)
      × (h ≤ one)
unfolding benjamini_hochberg holm_bonferroni
benjamini_hochberg-le-holm_bonferroni one ps i v h le =
    let sorted : List (ℕ × ℕ) = sort_indexed 0 ps in
    let (positive, above, below) =
      share_bounds one (length ps) 0 (length ps) 0 i v sorted
        (omega (arith, length-sort_indexed 0 ps)) (omega (arith, length-sort_indexed 0 ps))
        (sort_indexed-IsRising 0 ps) (find_given ps i v h) le in
    let (adjusted, stands, lower, upper) = holm_bonferroni_bounds one ps i v h le in
    let s : Share = share_at one i (hochberg_steps one (length ps) 0 sorted).1 in
    let same : written i (holm_steps one (length ps) 0 sorted) ≡ adjusted =
      ground
        (arith, stands, at_place (λ j. written j (holm_steps one (length ps) 0 sorted)) i ps v h) in
    (
      s,
      adjusted,
      at_place (λ j. share_at one j (hochberg_steps one (length ps) 0 sorted).1) i ps v h,
      stands,
      positive,
      above,
      subst (λ x. AtMost s (x, 1)) same below,
      upper,
    )
