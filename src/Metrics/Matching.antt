-- ===== src/Metrics/Matching.antt =====
-- Matching gold evidence against retrieved items: `match_gold_evidence` of
-- src/rag_eval/metrics/helpers.py, over `SourceLocation` of src/rag_eval/models/common.py.
--
-- Items and gold evidence are dumps of validated models, so that every key is there and an absent
-- value is None; pages and offsets are not negative. An item may have no source: its dump has
-- `source: None`, on which the source's `item.get("source", {}).get(...)` raises. A result `none`
-- is that exception.
pub mod Laws
pub mod Failure
pub mod Total
use rag_eval.Prelude.{
  ℕ, suc, ◌+◌, Bool, true, false, not, ◌&&◌, Option, none, some, String, List, [], ◌∷◌, ◌==◌, ltb,
  min, max, str_eq, if◌then◌else◌,
}

-- The coordinates of `class SourceLocation` that matching reads.
pub record SourceLocation : Type 0 where
  pub document_id : Option String
  pub page : Option ℕ
  pub start_char : Option ℕ
  pub end_char : Option ℕ

-- `class RetrievedItem`
pub record RetrievedItem : Type 0 where
  pub retrieval_id : String
  pub source : Option SourceLocation

-- `match_type` of `class SpanMatch`
pub data MatchType : Type 0 where
  span page document : MatchType

-- `class SpanMatch`: the matched item's index and the match's type, if there is a match.
pub record SpanMatch : Type 0 where
  pub matched : Bool
  pub matched_item_index : Option ℕ
  pub match_type : Option MatchType

-- `spans_overlap`, on half-open spans.
unfoldable pub spans_overlap : ℕ → ℕ → ℕ → ℕ → Bool
spans_overlap start_a end_a start_b end_b = ltb (max start_a start_b) (min end_a end_b)

-- `a == b` on optional texts and numbers.
abbrev pub same_text : Option String → Option String → Bool
same_text none none = true
same_text (some a) (some b) = str_eq a b
same_text none (some b) = false
same_text (some a) none = false

abbrev pub same_number : Option ℕ → Option ℕ → Bool
same_number none none = true
same_number (some a) (some b) = a == b
same_number none (some b) = false
same_number (some a) none = false

overlap_all : Option ℕ → Option ℕ → Option ℕ → Option ℕ → Bool
unfolding spans_overlap
overlap_all (some a) (some b) (some c) (some d) = spans_overlap a b c d
overlap_all _ _ _ _ = false

-- The tests of the first loop's body on an item of the gold's document.
unfoldable pub span_test : SourceLocation → SourceLocation → Bool
unfolding overlap_all
span_test gold src = overlap_all gold.start_char gold.end_char src.start_char src.end_char

page_test_at : Option ℕ → Option ℕ → Bool
page_test_at none item_page = false
page_test_at (some p) item_page = same_number item_page (some p)

unfoldable pub page_test : SourceLocation → SourceLocation → Bool
unfolding page_test_at
page_test gold src = page_test_at gold.page src.page

unfoldable pub same_document : SourceLocation → SourceLocation → Bool
same_document gold src = same_text src.document_id gold.document_id

-- What a loop has found: an index and a type.
abbrev pub Found : Type 0
Found = Option (ℕ × MatchType)

-- The body of the first loop and the loop itself: a span ends it, a page is kept while it goes on.
unfoldable pub scan : SourceLocation → ℕ → Found → List RetrievedItem → Option Found
scan gold idx found [] = some found
scan gold idx found (item ∷ items) = elim item.source [
  | none ↦ none
  | some src ↦
      let next = scan gold (suc idx) found items in
      let paged = scan gold (suc idx) (some (idx, page)) items in
      if same_document gold src
      then (if span_test gold src
          then some (some (idx, span))
          else (if page_test gold src then paged else next))
      else next
]

-- A loop that stops at the first item of the document that passes a test.
unfoldable pub first_where :
    (SourceLocation → Bool) → MatchType → ℕ → List RetrievedItem → Option Found
first_where test kind idx [] = some none
first_where test kind idx (item ∷ items) = elim item.source [
  | none ↦ none
  | some src ↦
      let next = first_where test kind (suc idx) items in
      if test src then some (some (idx, kind)) else next
]

-- The second loop, for pages, and the third, for documents.
unfoldable pub page_loop : SourceLocation → List RetrievedItem → Option Found
page_loop gold = first_where (λ src. same_document gold src && page_test gold src) page 0

unfoldable pub document_loop : SourceLocation → List RetrievedItem → Option Found
document_loop gold = first_where (same_document gold) document 0

-- Without a match so far, the next loop is run. A loop of the source sets the found flag and the
-- index together, so that its step for an index without the flag is never taken.
abbrev pub or_loop : Option Found → Option Found → Option Found
or_loop none next = none
or_loop (some (some hit)) next = some (some hit)
or_loop (some none) next = next

abbrev pub span_match : Found → SpanMatch
span_match none = record { matched = false; matched_item_index = none; match_type = none }
span_match (some (idx, kind)) = record {
  matched = true;
  matched_item_index = some idx;
  match_type = some kind;
}

-- `not gold_doc_id`
abbrev pub no_document : Option String → Bool
no_document none = true
no_document (some d) = str_eq d ""

-- The three loops on one piece of gold evidence with a document.
unfoldable pub search_items : SourceLocation → List RetrievedItem → Option Found
search_items gold items =
    or_loop (scan gold 0 none items) (or_loop (page_loop gold items) (document_loop gold items))

-- The body of the outer loop of `match_gold_evidence`.
unfoldable pub match_one : SourceLocation → List RetrievedItem → Option SpanMatch
match_one gold items =
    if no_document gold.document_id
    then some (span_match none)
    else (elim (search_items gold items) [ none ↦ none | some f ↦ some (span_match f) ])

-- `match_gold_evidence`
unfoldable pub match_gold_evidence :
    List SourceLocation → List RetrievedItem → Option (List SpanMatch)
match_gold_evidence [] items = some []
match_gold_evidence (gold ∷ golds) items = elim (match_one gold items) [
  | none ↦ none
  | some m ↦ elim (match_gold_evidence golds items) [ none ↦ none | some ms ↦ some (m ∷ ms) ]
]
