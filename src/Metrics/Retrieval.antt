-- ===== src/Metrics/Retrieval.antt =====
-- The retrieval metrics: src/rag_eval/metrics/retrieval.py, with the stage lookup of
-- src/rag_eval/metrics/context.py and `safe_divide` of src/rag_eval/metrics/helpers.py.
--
-- A value is the exact fraction that the source computes in floats and rounds to six digits. `k` is
-- not negative: the source treats a negative k as 0. The logarithmic discounts of nDCG are a
-- parameter, the weights of the ranks in some common unit. Details, ids and reason texts of a
-- result are left out.
pub mod Staged
pub mod Scores
pub mod Ranking
pub mod Precision
pub mod Recall
use rag_eval.Prelude.{
  ℕ, zero, suc, ◌+◌, ◌-◌, ◌*◌, min, Bool, true, false, Option, none, some, String, List, [], ◌∷◌,
  ◌++◌, map, ◌==◌, str_eq, any, count_if, take, length, sum, indicator, if◌then◌else◌,
}
use rag_eval.Metrics.Matching.{
  SourceLocation, RetrievedItem, SpanMatch, same_text, no_document, match_gold_evidence,
}

-- `class RetrievalStageType`
pub data RetrievalStageType : Type 0 where
  candidate_retrieval fusion rerank filter compression final_context : RetrievalStageType
  query_rewrite hybrid_retrieval deduplication routing custom : RetrievalStageType

unfoldable pub RetrievalStageType-discrete : Discrete RetrievalStageType
RetrievalStageType-discrete = hlevel

abbrev pub same_type : RetrievalStageType → RetrievalStageType → Bool
same_type a b = elim (RetrievalStageType-discrete a b) [ yes p ↦ true | no n ↦ false ]

-- `class RetrievalStageView`
pub record RetrievalStage : Type 0 where
  pub stage_id : String
  pub stage_type : RetrievalStageType
  pub items : List RetrievedItem

-- `class MetricContext`: the gold evidence of the case, and the stages of the observation's
-- retrieval, which is absent where there is no observation or no retrieval.
pub record MetricContext : Type 0 where
  pub gold_evidence : List SourceLocation
  pub retrieval : Option (List RetrievalStage)

-- `has_gold_evidence`
abbrev pub has_gold_evidence : List SourceLocation → Bool
has_gold_evidence [] = false
has_gold_evidence (g ∷ gs) = true

unfoldable pub first_stage : (RetrievalStage → Bool) → List RetrievalStage → Option RetrievalStage
first_stage p [] = none
first_stage p (s ∷ stages) = if p s then some s else first_stage p stages

in_retrieval : (RetrievalStage → Bool) → Option (List RetrievalStage) → Option RetrievalStage
in_retrieval p none = none
in_retrieval p (some stages) = first_stage p stages

-- `get_retrieval_stage_by_id`
unfoldable pub get_retrieval_stage_by_id : MetricContext → String → Option RetrievalStage
unfolding in_retrieval
get_retrieval_stage_by_id c id = in_retrieval (λ s. str_eq s.stage_id id) c.retrieval

-- `get_retrieval_stage_by_type`; `get_retrieval_stage` only adds a test for an empty list of stages.
unfoldable pub get_retrieval_stage_by_type :
    MetricContext → RetrievalStageType → Option RetrievalStage
unfolding in_retrieval
get_retrieval_stage_by_type c t = in_retrieval (λ s. same_type s.stage_type t) c.retrieval

-- `_get_stage`
unfoldable pub get_stage :
    MetricContext → Option String → Option RetrievalStageType → Option RetrievalStage
get_stage c (some id) t = get_retrieval_stage_by_id c id
get_stage c none (some t) = get_retrieval_stage_by_type c t
get_stage c none none = get_retrieval_stage_by_type c candidate_retrieval

pub record Fraction : Type 0 where
  pub num : ℕ
  pub den : ℕ

-- `safe_divide` with the default 0.
unfoldable pub safe_divide : ℕ → ℕ → Fraction
safe_divide n d = if d == 0 then record { num = 0; den = 1 } else (record { num = n; den = d })

-- How a metric ends. `failed` is an exception, which the engine turns into a FAILED result.
pub data Outcome : Type 0 where
  unavailable failed : Outcome
  computed : Fraction → Outcome

-- The checks that every metric begins with, and the stage's items and the gold evidence for it.
unfoldable pub with_inputs :
    MetricContext
    → Option String
    → Option RetrievalStageType
    → (List RetrievedItem → List SourceLocation → Outcome)
    → Outcome
with_inputs c id t f =
    if has_gold_evidence c.gold_evidence
    then (elim (get_stage c id t) [ none ↦ unavailable | some s ↦ f s.items c.gold_evidence ])
    else unavailable

relevant_source : List SourceLocation → Option SourceLocation → Bool
relevant_source gold none = false
relevant_source gold (some src) =
    if no_document src.document_id
    then false
    else any (λ g. same_text g.document_id src.document_id) gold

-- `_is_item_relevant`
unfoldable pub is_item_relevant : List SourceLocation → RetrievedItem → Bool
unfolding relevant_source
is_item_relevant gold item = relevant_source gold item.source

abbrev pub zero_value : Outcome
zero_value = computed (record { num = 0; den = 1 })

-- `if self._k <= 0 or not items`
abbrev pub no_work : ℕ → List RetrievedItem → Bool
no_work zero items = true
no_work (suc k) [] = true
no_work (suc k) (i ∷ items) = false

-- `HitAtK.compute`, from the items on.
unfoldable pub hit_at_k : ℕ → List RetrievedItem → List SourceLocation → Outcome
hit_at_k k items gold =
    if no_work k items
    then zero_value
    else computed (record { num = indicator (any (is_item_relevant gold) (take k items)); den = 1 })

-- `PrecisionAtK.compute`
unfoldable pub precision_at_k : ℕ → List RetrievedItem → List SourceLocation → Outcome
precision_at_k k items gold =
    if no_work k items
    then zero_value
    else computed (safe_divide (count_if (is_item_relevant gold) (take k items)) k)

recall_of : List SourceLocation → Option (List SpanMatch) → Outcome
recall_of gold none = failed
recall_of gold (some matches) =
    computed (safe_divide (count_if (λ m. m.matched) matches) (length gold))

-- `RecallAtK.compute`
unfoldable pub recall_at_k : ℕ → List RetrievedItem → List SourceLocation → Outcome
unfolding recall_of
recall_at_k k items gold =
    if no_work k items then zero_value else recall_of gold (match_gold_evidence gold (take k items))

-- The loop of `MRR.compute`: the rank of the first relevant item, from 1.
unfoldable pub first_relevant_rank : List SourceLocation → ℕ → List RetrievedItem → Option ℕ
first_relevant_rank gold idx [] = none
first_relevant_rank gold idx (item ∷ items) =
    let next = first_relevant_rank gold (suc idx) items in
    if is_item_relevant gold item then some (idx + 1) else next

-- `MRR.compute`
unfoldable pub mrr : List RetrievedItem → List SourceLocation → Outcome
mrr items gold = elim (first_relevant_rank gold 0 items) [
  | none ↦ zero_value
  | some rank ↦ computed (record { num = 1; den = rank })
]

-- The sum of two fractions.
abbrev pub add_fraction : Fraction → Fraction → Fraction
add_fraction a b = record { num = a.num * b.den + b.num * a.den; den = a.den * b.den }

-- The loop of `MAPAtK.compute` from the state (i, relevant_count): the sum of the precisions that it
-- still adds.
unfoldable pub sum_precision : List SourceLocation → ℕ → ℕ → List RetrievedItem → Fraction
sum_precision gold i relevant_count [] = record { num = 0; den = 1 }
sum_precision gold i relevant_count (item ∷ items) = elim (is_item_relevant gold item) [
  | true ↦
      add_fraction (record { num = relevant_count + 1; den = i + 1 })
        (sum_precision gold (suc i) (relevant_count + 1) items)
  | false ↦ sum_precision gold (suc i) relevant_count items
]

-- `MAPAtK.compute`
unfoldable pub map_at_k : ℕ → List RetrievedItem → List SourceLocation → Outcome
map_at_k k items gold =
    let s = sum_precision gold 0 0 (take k items) in
    let k_actual = min (length gold) k in
    if no_work k items
    then zero_value
    else (if k_actual == 0
        then zero_value
        else computed (record { num = s.num; den = s.den * k_actual }))

-- `_get_relevance_scores`
unfoldable pub relevance_scores : List SourceLocation → List RetrievedItem → List ℕ
relevance_scores gold items = map (λ i. indicator (is_item_relevant gold i)) items

-- `sum(rel / math.log2(i + 2) for i, rel in enumerate(scores))`, with the weights `w i`.
unfoldable pub discounted : (ℕ → ℕ) → ℕ → List ℕ → ℕ
discounted w i [] = 0
discounted w i (r ∷ rest) = r * w i + discounted w (suc i) rest

abbrev pub replicate {ℓ} : {A : Type ℓ} → ℕ → A → List A
replicate zero a = []
replicate (suc n) a = a ∷ replicate n a

-- `ideal_scores`
unfoldable pub ideal_scores : ℕ → ℕ → List ℕ
ideal_scores relevant shown = replicate relevant 1 ++ replicate (shown - relevant) 0

-- `NDCGAtK.compute`
unfoldable pub ndcg_at_k : (ℕ → ℕ) → ℕ → List RetrievedItem → List SourceLocation → Outcome
ndcg_at_k w k items gold =
    let scores = relevance_scores gold items in
    let top = take k scores in
    let dcg = discounted w 0 top in
    let idcg = discounted w 0 (take k (ideal_scores (sum scores) (length top))) in
    if no_work k items
    then zero_value
    else (if idcg == 0 then zero_value else computed (record { num = dcg; den = idcg }))

-- `RPrecision.compute`
unfoldable pub r_precision : List RetrievedItem → List SourceLocation → Outcome
r_precision items gold =
    let cutoff = min (length gold) (length items) in
    computed (safe_divide (count_if (is_item_relevant gold) (take cutoff items)) cutoff)
