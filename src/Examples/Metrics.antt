-- ===== src/Examples/Metrics.antt =====
-- Values of the metrics of src/rag_eval/metrics/retrieval.py and src/rag_eval/metrics/helpers.py.
use rag_eval.Prelude.{
  ℕ, All, ◌-◌, ◌≡◌, true, false, none, some, List, [], ◌∷◌, any, count_if, take, length, refl,
  arith,
}
use rag_eval.Metrics.Matching.{
  SourceLocation, RetrievedItem, SpanMatch, page, match_one, match_gold_evidence, search_items,
  scan, same_document, span_test, spans_overlap, page_test,
}
use rag_eval.Metrics.Matching.Laws.{in_span}
use rag_eval.Metrics.Matching.Total.{retrieved, match_gold_evidence-total}
use rag_eval.Metrics.Spans.{
  Span, compute_span_union_length, sort_spans, insert_span, merge_spans, total_length,
}
use rag_eval.Metrics.Spans.Union.{Within, covered, compute_span_union_length-covered}
use rag_eval.Metrics.Retrieval.{
  MetricContext, candidate_retrieval, with_inputs, is_item_relevant, hit_at_k, precision_at_k,
  recall_at_k, mrr, ndcg_at_k, r_precision,
}
use rag_eval.Metrics.Retrieval.Staged.{f1_at_k, document_recall, page_recall}
use rag_eval.Metrics.Retrieval.Scores.{InUnit, scores-InUnit}
use rag_eval.Metrics.Retrieval.Ranking.{Falling, ndcg_at_k-InUnit}

abbrev manual : SourceLocation
manual = record {
  document_id = some "manual";
  page = some 3;
  start_char = some 10;
  end_char = some 20;
}

-- The same page, another span.
abbrev nearby : RetrievedItem
nearby = record {
  retrieval_id = "r1";
  source = some (record manual { start_char = some 40; end_char = some 50 });
}

abbrev elsewhere : RetrievedItem
elsewhere = record {
  retrieval_id = "r2";
  source =
      some (record { document_id = some "guide"; page = none; start_char = none; end_char = none });
}

abbrev sourceless : RetrievedItem
sourceless = record { retrieval_id = "r3"; source = none }

abbrev items : List RetrievedItem
items = elsewhere ∷ nearby ∷ []

abbrev page_match : SpanMatch
page_match = record { matched = true; matched_item_index = some 1; match_type = some page }

matches_page : match_one manual items ≡ some page_match
unfolding match_one search_items scan same_document span_test spans_overlap page_test
matches_page = refl

match_gold_evidence-total_example :
    (ms : List SpanMatch) × (match_gold_evidence (manual ∷ []) items ≡ some ms)
    × (length ms ≡ 1)
    × (count_if (λ m. m.matched) ms ≡ count_if (retrieved items) (manual ∷ []))
match_gold_evidence-total_example = match_gold_evidence-total (manual ∷ []) items refl

abbrev one_stage : MetricContext
one_stage = record {
  gold_evidence = manual ∷ [];
  retrieval =
      some (record { stage_id = "first"; stage_type = candidate_retrieval; items = items } ∷ []);
}

scores-InUnit_example :
    InUnit (with_inputs one_stage none none (hit_at_k 2))
    × InUnit (with_inputs one_stage none none (precision_at_k 2))
    × InUnit (with_inputs one_stage none none (recall_at_k 2))
    × InUnit (with_inputs one_stage none none mrr)
    × InUnit (with_inputs one_stage none none r_precision)
    × InUnit (with_inputs one_stage none none (f1_at_k 2))
    × InUnit (with_inputs one_stage none none (document_recall 2))
    × InUnit (with_inputs one_stage none none (page_recall 2))
scores-InUnit_example = scores-InUnit one_stage none none 2

-- Weights that fall to 0.
abbrev weight : ℕ → ℕ
weight i = 10 - i

weight-Falling : Falling weight
weight-Falling i j h = omega arith

ndcg_at_k-InUnit_example : InUnit (ndcg_at_k weight 2 items (manual ∷ []))
ndcg_at_k-InUnit_example = ndcg_at_k-InUnit weight 2 items (manual ∷ []) weight-Falling

-- Two chunks of the one gold document.
abbrev chunks : List RetrievedItem
chunks = nearby ∷ record nearby { retrieval_id = "r4" } ∷ []

both_relevant : count_if (is_item_relevant (manual ∷ [])) (take 2 chunks) ≡ length (take 2 chunks)
unfolding is_item_relevant
both_relevant = refl

no_span : any (in_span manual) (sourceless ∷ nearby ∷ []) ≡ false
unfolding same_document span_test spans_overlap
no_span = refl

-- Two overlapping spans, out of order, and one apart.
abbrev spans : List Span
spans = (10, 20) ∷ (5, 12) ∷ (30, 31) ∷ []

spans-Within : All (Within 40) spans
spans-Within =
    ((omega arith, omega arith), ((omega arith, omega arith), ((omega arith, omega arith), tt)))

union_test : compute_span_union_length spans ≡ 16
unfolding compute_span_union_length sort_spans insert_span merge_spans total_length
union_test = refl

compute_span_union_length-covered_example : compute_span_union_length spans ≡ covered spans 40
compute_span_union_length-covered_example = compute_span_union_length-covered 40 spans spans-Within
