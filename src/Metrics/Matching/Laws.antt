-- ===== src/Metrics/Matching/Laws.antt =====
-- What `match_gold_evidence` (src/rag_eval/metrics/helpers.py) finds.
use rag_eval.Prelude.{
  ℕ, suc, ◌≡◌, inl, inr, Bool, true, false, ◌&&◌, Option, none, some, List, [], ◌∷◌, any, is_some,
  ap, ◌∙◌, arith, Option-cases, if◌then◌else◌,
}
use rag_eval.Metrics.Matching.{
  SourceLocation, RetrievedItem, MatchType, SpanMatch, span, page, document, Found, span_test,
  page_test, same_document, scan, first_where, page_loop, document_loop, span_match, no_document,
  search_items, match_one,
}

-- Whether an item has a source that passes a test.
abbrev pub item_passes : (SourceLocation → Bool) → RetrievedItem → Bool
item_passes test item = elim item.source [ none ↦ false | some src ↦ test src ]

first_where-found :
    (test : SourceLocation → Bool) (kind : MatchType) (idx : ℕ) (items : List RetrievedItem)
    (f : Found)
    → first_where test kind idx items ≡ some f
    → is_some f ≡ any (item_passes test) items
unfolding first_where
first_where-found test kind idx [] f h = ground arith
first_where-found test kind idx (item ∷ items) f h =
    ground (arith, first_where-found test kind (suc idx) items f)

abbrev pub kind_of : Found → Option MatchType
kind_of none = none
kind_of (some (idx, kind)) = some kind

-- The tests on an item of a piece of gold evidence: its document, an overlapping span, a page.
abbrev pub in_document : SourceLocation → RetrievedItem → Bool
in_document gold = item_passes (same_document gold)

abbrev pub in_span : SourceLocation → RetrievedItem → Bool
in_span gold = item_passes (λ src. same_document gold src && span_test gold src)

abbrev pub on_page : SourceLocation → RetrievedItem → Bool
on_page gold = item_passes (λ src. same_document gold src && page_test gold src)

scan-kind :
    (gold : SourceLocation) (idx : ℕ) (found f : Found) (items : List RetrievedItem)
    → scan gold idx found items ≡ some f
    → kind_of f ≡ (
        if any (in_span gold) items
        then some span
        else (if any (on_page gold) items then some page else kind_of found))
unfolding scan
scan-kind gold idx found f [] h = ground arith
scan-kind gold idx found f (item ∷ items) h = ground (
  arith,
  scan-kind gold (suc idx) found f items,
  scan-kind gold (suc idx) (some (idx, page)) f items,
)

first_where-kind :
    (test : SourceLocation → Bool) (kind : MatchType) (idx : ℕ) (items : List RetrievedItem)
    (f : Found)
    → first_where test kind idx items ≡ some f
    → kind_of f ≡ (if any (item_passes test) items then some kind else none)
unfolding first_where
first_where-kind test kind idx [] f h = ground arith
first_where-kind test kind idx (item ∷ items) f h =
    ground (arith, first_where-kind test kind (suc idx) items f)

-- The three loops together grade a match as the first of the three tests that an item passes.
abbrev pub grade : SourceLocation → List RetrievedItem → Option MatchType
grade gold items =
    if any (in_span gold) items
    then some span
    else (if any (on_page gold) items
        then some page
        else (if any (in_document gold) items then some document else none))

search_items-grade :
    (gold : SourceLocation) (items : List RetrievedItem) (f : Found)
    → search_items gold items ≡ some f
    → kind_of f ≡ grade gold items
unfolding search_items page_loop document_loop
search_items-grade gold items f h = elim (Option-cases (scan gold 0 none items)) [
  | inl e ↦ ground arith
  | inr (f₁, e) ↦ ground (
    arith,
    scan-kind gold 0 none f₁ items e,
    first_where-kind (same_document gold) document 0 items f,
    first_where-kind (λ (src : SourceLocation). same_document gold src && page_test gold src) page 0
        items f,
  )
]

any-implies :
    (p q : RetrievedItem → Bool) (items : List RetrievedItem)
    → ((item : RetrievedItem) → p item ≡ true → q item ≡ true)
    → any p items ≡ true
    → any q items ≡ true
any-implies p q [] h e = e
any-implies p q (item ∷ items) h e = ground (arith, h item, any-implies p q items h)

in_span-in_document :
    (gold : SourceLocation) (item : RetrievedItem)
    → in_span gold item ≡ true
    → in_document gold item ≡ true
in_span-in_document gold item h = ground arith

on_page-in_document :
    (gold : SourceLocation) (item : RetrievedItem)
    → on_page gold item ≡ true
    → in_document gold item ≡ true
on_page-in_document gold item h = ground arith

grade-is_some :
    (gold : SourceLocation) (items : List RetrievedItem)
    → is_some (grade gold items) ≡ any (in_document gold) items
grade-is_some gold items = ground (
  arith,
  any-implies (in_span gold) (in_document gold) items (in_span-in_document gold),
  any-implies (on_page gold) (in_document gold) items (on_page-in_document gold),
)

span_match-kind :
    (f : Found)
    → ((span_match f).match_type ≡ kind_of f) × ((span_match f).matched ≡ is_some (kind_of f))
span_match-kind f = ground arith

match_one-found :
    (gold : SourceLocation) (items : List RetrievedItem) (m : SpanMatch)
    → no_document gold.document_id ≡ false
    → match_one gold items ≡ some m
    → (f : Found) × (search_items gold items ≡ some f) × (m ≡ span_match f)
unfolding match_one
match_one-found gold items m d h = elim (Option-cases (search_items gold items)) [
  | inl e ↦ absurd (ground arith)
  | inr (f, e) ↦ (f, e, ground arith)
]

-- Where matching a piece of gold evidence with a document does not raise, the match is graded by the
-- best test that some item passes (an overlapping span of the document, else its page, else the
-- document alone), and it is a match exactly when some item is of the document.
pub match_one-grade :
    (gold : SourceLocation) (items : List RetrievedItem) (m : SpanMatch)
    → no_document gold.document_id ≡ false
    → match_one gold items ≡ some m
    → (m.match_type ≡ grade gold items) × (m.matched ≡ any (in_document gold) items)
match_one-grade gold items m d h =
    let (f, e, same) = match_one-found gold items m d h in
    let graded = search_items-grade gold items f e in
    let (kind, matched) = span_match-kind f in
    rw same (kind ∙ graded, matched ∙ ap is_some graded ∙ grade-is_some gold items)
