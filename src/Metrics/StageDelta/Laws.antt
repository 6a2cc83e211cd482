-- ===== src/Metrics/StageDelta/Laws.antt =====
-- The range of the retention rates and the sign of the rank changes
-- (src/rag_eval/metrics/stage_delta.py).
use rag_eval.Prelude.{
  ℕ, ◌≤◌, ◌≡◌, Bool, true, false, Option, none, some, String, List, [], ◌∷◌, any, count_if-le,
  length, str_eq, arith, refl, ap, inl, inr, Option-cases, Bool-cases,
}
use rag_eval.Prelude.Int.{pos, ◌-ℤ◌, neg, eq_of_parts, neg_parts, -ℤ_parts}
use rag_eval.Metrics.Matching.{RetrievedItem, SpanMatch, same_text, match_gold_evidence}
use rag_eval.Metrics.Retrieval.{
  MetricContext, has_gold_evidence, get_retrieval_stage_by_id, unavailable, first_relevant_rank,
}
use rag_eval.Metrics.Retrieval.Staged.{distinct}
use rag_eval.Metrics.Retrieval.Scores.{InUnit, safe_divide-InUnit, length-match_gold_evidence}
use rag_eval.Metrics.StageDelta.{
  ranked, missing, rank_change, with_pair, with_gold_pair, both_matched, gold_retention, retention,
  item_retention_rate, source_retention_rate, rank_delta, rank_gain, rank_regression,
}

module _ {ℓ κ} {A : Type ℓ} (P : A → Type κ) where
  with_pair-ends :
      (c : MetricContext) (b a : String) (bad : A) (f : List RetrievedItem → List RetrievedItem → A)
      → P bad
      → ((xs ys : List RetrievedItem) → P (f xs ys))
      → P (with_pair c b a bad f)
  unfolding with_pair
  with_pair-ends c b a bad f p h = elim (Option-cases (get_retrieval_stage_by_id c b)) [
    | inl e ↦ rw (e, with_pair) p
    | inr (before, e) ↦ elim (Option-cases (get_retrieval_stage_by_id c a)) [
      | inl e' ↦ rw (e, with_pair) (rw (e', with_pair) p)
      | inr (after, e') ↦ rw (e, with_pair) (rw (e', with_pair) (h before.items after.items))
    ]
  ]

  with_gold_pair-ends :
      (c : MetricContext) (b a : String) (bad : A) (f : List RetrievedItem → List RetrievedItem → A)
      → P bad
      → ((xs ys : List RetrievedItem) → P (f xs ys))
      → P (with_gold_pair c b a bad f)
  unfolding with_gold_pair
  with_gold_pair-ends c b a bad f p h = elim (Bool-cases (has_gold_evidence c.gold_evidence)) [
    | inl e ↦ rw (e, with_gold_pair) (with_pair-ends c b a bad f p h)
    | inr e ↦ rw (e, with_gold_pair) p
  ]

both_matched-le : (xs ys : List SpanMatch) → both_matched xs ys ≤ length xs
unfolding both_matched
both_matched-le [] ys = omega arith
both_matched-le (x ∷ xs) [] = omega arith
both_matched-le (x ∷ xs) (y ∷ ys) = ground (arith, both_matched-le xs ys)

retention-InUnit {ℓ} :
    {A : Type ℓ} (same : A → A → Bool) (before after : List A)
    → InUnit (retention same before after)
unfolding retention
retention-InUnit same before after =
    safe_divide-InUnit _ _ (count_if-le (λ x. any (same x) after) (distinct same before))

-- Gold retention, item retention and source retention lie between 0 and 1 wherever they are
-- computed, for every pair of stages, with duplicate items and duplicate gold evidence included.
pub retentions-InUnit :
    (c : MetricContext) (before_id after_id : String)
    → InUnit (gold_retention c before_id after_id)
      × InUnit (item_retention_rate c before_id after_id)
      × InUnit (source_retention_rate c before_id after_id)
unfolding gold_retention item_retention_rate source_retention_rate
retentions-InUnit c b a = (
  with_gold_pair-ends InUnit c b a unavailable _ tt (λ xs ys.
      elim (Option-cases (match_gold_evidence c.gold_evidence xs)) [
        | inl e ↦ rw e tt
        | inr (ms, e) ↦ elim (Option-cases (match_gold_evidence c.gold_evidence ys)) [
          | inl e' ↦ rw e (rw e' tt)
          | inr (ns, e') ↦ rw e (
              rw e' (
                safe_divide-InUnit (both_matched ms ns) (length c.gold_evidence) (
                  omega (
                    arith,
                    both_matched-le ms ns,
                    length-match_gold_evidence c.gold_evidence xs ms e,
                  ))))
        ]
      ]),
  with_pair-ends InUnit c b a unavailable _ tt (λ xs ys. retention-InUnit str_eq _ _),
  with_pair-ends InUnit c b a unavailable _ tt (λ xs ys. retention-InUnit same_text _ _),
)

rank_change-swapped : (b a : Option ℕ) → rank_change true b a ≡ rank_change false a b
unfolding rank_change
rank_change-swapped none none = refl
rank_change-swapped none (some a) = refl
rank_change-swapped (some b) none = refl
rank_change-swapped (some b) (some a) = ap ranked (
    eq_of_parts (neg (pos b -ℤ pos a)) (pos a -ℤ pos b) (
      omega
        (arith, neg_parts (pos b -ℤ pos a), -ℤ_parts (pos b) (pos a), -ℤ_parts (pos a) (pos b))))

with_pair-swapped {ℓ} :
    {A : Type ℓ} (c : MetricContext) (b a : String) (bad : A)
    (f g : List RetrievedItem → List RetrievedItem → A)
    → ((xs ys : List RetrievedItem) → f xs ys ≡ g ys xs)
    → with_pair c b a bad f ≡ with_pair c a b bad g
unfolding with_pair
with_pair-swapped c b a bad f g h = elim (Option-cases (get_retrieval_stage_by_id c b)) [
  | inl e ↦ elim (Option-cases (get_retrieval_stage_by_id c a)) [
    | inl e' ↦ rw (e, with_pair) (rw (e', with_pair) refl)
    | inr (after, e') ↦ rw (e, with_pair) (rw (e', with_pair) (rw (e, with_pair) refl))
  ]
  | inr (before, e) ↦ elim (Option-cases (get_retrieval_stage_by_id c a)) [
    | inl e' ↦ rw (e, with_pair) (rw (e', with_pair) refl)
    | inr (after, e') ↦
        rw (e, with_pair) (rw (e', with_pair) (rw (e, with_pair) (h before.items after.items)))
  ]
]

-- The rank regression from one stage to another is the rank gain from the other to the one, also
-- where a stage, the gold evidence or a relevant item is missing.
pub rank_regression-rank_gain :
    (c : MetricContext) (before_id after_id : String)
    → rank_regression c before_id after_id ≡ rank_gain c after_id before_id
unfolding rank_delta with_gold_pair
rank_regression-rank_gain c b a = elim (Bool-cases (has_gold_evidence c.gold_evidence)) [
  | inr e ↦ rw e refl
  | inl e ↦ rw e (
      with_pair-swapped c b a missing _ _ (λ xs ys.
        rank_change-swapped (first_relevant_rank c.gold_evidence 0 xs)
          (first_relevant_rank c.gold_evidence 0 ys)))
]
