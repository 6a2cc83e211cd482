-- ===== src/Metrics/Retrieval/Ranking.antt =====
-- The ranked metrics of src/rag_eval/metrics/retrieval.py: nDCG and average precision.
use rag_eval.Prelude.{ℕ, zero, suc, ◌-◌, ◌≤◌, List, [], ◌∷◌, ◌++◌, All, take, length, sum, arith}
use rag_eval.Metrics.Matching.{SourceLocation, RetrievedItem}
use rag_eval.Metrics.Retrieval.{relevance_scores, discounted, replicate, ideal_scores, ndcg_at_k}
use rag_eval.Metrics.Retrieval.Scores.{InUnit}

-- The discounts fall with the rank, as 1 / log2(i + 2) does.
abbrev pub Falling : (ℕ → ℕ) → Type 0
Falling w = (i j : ℕ) → i ≤ j → w j ≤ w i

abbrev pub Binary : List ℕ → Type 0
Binary = All (λ r. r ≤ 1)

-- The gain of a ranking is at most that of as many ones at the front.
discounted-le-ones :
    (w : ℕ → ℕ) (i j : ℕ) (scores : List ℕ)
    → Falling w
    → Binary scores
    → j ≤ i
    → discounted w i scores ≤ discounted w j (replicate (sum scores) 1)
unfolding discounted
discounted-le-ones w i j [] f b l = omega arith
discounted-le-ones w i j (zero ∷ rest) f b l =
    ground (arith, discounted-le-ones w (suc i) j rest f b.1 (omega arith))
discounted-le-ones w i j (suc zero ∷ rest) f b l =
    ground (arith, discounted-le-ones w (suc i) (suc j) rest f b.1 (omega arith), f j i l)
discounted-le-ones w i j (suc (suc r) ∷ rest) f b l = absurd (omega (arith, b.0))

sum-take_le : (k : ℕ) (scores : List ℕ) → sum (take k scores) ≤ sum scores
sum-take_le zero scores = omega arith
sum-take_le (suc k) [] = omega arith
sum-take_le (suc k) (r ∷ rest) = omega (arith, sum-take_le k rest)

sum-take_le_k : (k : ℕ) (scores : List ℕ) → Binary scores → sum (take k scores) ≤ k
sum-take_le_k zero scores b = omega arith
sum-take_le_k (suc k) [] b = omega arith
sum-take_le_k (suc k) (r ∷ rest) b = omega (arith, sum-take_le_k k rest b.1, b.0)

-- More ones at the front gain at least as much, cut at `k`.
ones-le-ideal :
    (w : ℕ → ℕ) (j m k relevant : ℕ) (tail : List ℕ)
    → m ≤ relevant
    → m ≤ k
    → discounted w j (replicate m 1) ≤ discounted w j (take k (replicate relevant 1 ++ tail))
unfolding discounted
ones-le-ideal w j zero k relevant tail h l = omega arith
ones-le-ideal w j (suc m) zero relevant tail h l = absurd (omega arith)
ones-le-ideal w j (suc m) (suc k) zero tail h l = absurd (omega arith)
ones-le-ideal w j (suc m) (suc k) (suc relevant) tail h l =
    omega (arith, ones-le-ideal w (suc j) m k relevant tail (omega arith) (omega arith))

Binary-take : (k : ℕ) (scores : List ℕ) → Binary scores → Binary (take k scores)
Binary-take zero scores b = tt
Binary-take (suc k) [] b = tt
Binary-take (suc k) (r ∷ rest) b = (b.0, Binary-take k rest b.1)

relevance_scores-Binary :
    (gold : List SourceLocation) (items : List RetrievedItem) → Binary (relevance_scores gold items)
unfolding relevance_scores
relevance_scores-Binary gold [] = tt
relevance_scores-Binary gold (i ∷ items) = (ground arith, relevance_scores-Binary gold items)

dcg-le-idcg :
    (w : ℕ → ℕ) (k shown : ℕ) (scores : List ℕ)
    → Falling w
    → Binary scores
    → discounted w 0 (take k scores) ≤ discounted w 0 (take k (ideal_scores (sum scores) shown))
unfolding ideal_scores
dcg-le-idcg w k shown scores f b = omega (
  arith,
  discounted-le-ones w 0 0 (take k scores) f (Binary-take k scores b) (omega arith),
  ones-le-ideal w 0 (sum (take k scores)) k (sum scores) (replicate (shown - sum scores) 0)
      (sum-take_le k scores) (sum-take_le_k k scores b),
)

-- With discounts that fall with the rank, as the logarithmic ones do, nDCG@K lies between 0 and 1
-- for every ranking.
pub ndcg_at_k-InUnit :
    (w : ℕ → ℕ) (k : ℕ) (items : List RetrievedItem) (gold : List SourceLocation)
    → Falling w
    → InUnit (ndcg_at_k w k items gold)
unfolding ndcg_at_k
ndcg_at_k-InUnit w k items gold f =
    let scores : List ℕ = relevance_scores gold items in
    ground (
      arith,
      dcg-le-idcg w k (length (take k scores)) scores f (relevance_scores-Binary gold items),
    )
