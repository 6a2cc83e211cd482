-- ===== src/Reporting/Compare.antt =====
-- The comparison of two runs: src/rag_eval/reporting/compare.py.
--
-- Aggregate values are integers in a common unit, of which `epsilon` make 0.0001. Run and metric
-- identities that a result copies from its arguments are left out, and so are the statistics of the
-- pairs, which Reporting/Stats has.
pub mod Directions
pub mod Verdicts
pub mod Pairs
pub mod Adjust
use Prim.Native.String
use text.Mathlib.Text.{is_le, is_lt, is_eq}
use rag_eval.Prelude.{
  ℕ, suc, ◌+◌, ◌*◌, ◌==◌, ltb, Bool, true, false, not, ◌&&◌, ◌||◌, Option, none, some, is_some,
  String, List, [], ◌∷◌, map, keep, str_eq, if◌then◌else◌,
}
use rag_eval.Prelude.Int.{ℤ, pos, ◌-ℤ◌, ltb_ℤ, neg, abs, scale}
use rag_eval.Prelude.Dict.{lookup, assign, keys, sorted}
use rag_eval.Reporting.Compare.Directions.{
  Direction, higher_is_better, lower_is_better, unknown, direction_of,
}

-- `value` of an aggregate: None, a number, or something that `float` refuses.
pub data AggregateValue : Type 0 where
  no_value opaque : AggregateValue
  numeric : ℤ → AggregateValue

-- `assessment` of a comparison.
pub data Assessment : Type 0 where
  improved regressed unchanged inconclusive : Assessment

-- `class MetricComparison`, with the relative delta as percents over a denominator.
pub record MetricComparison : Type 0 where
  pub direction : Direction
  pub absolute_delta : Option ℤ
  pub relative_delta : Option (ℤ × ℕ)
  pub assessment : Assessment

-- `absolute_delta`
unfoldable pub absolute_change : AggregateValue → AggregateValue → Option ℤ
absolute_change (numeric a) (numeric b) = some (b -ℤ a)
absolute_change _ _ = none

-- `relative_delta`
unfoldable pub relative_change : AggregateValue → AggregateValue → Option (ℤ × ℕ)
relative_change (numeric a) (numeric b) =
    if abs a == 0 then none else some (scale 100 (b -ℤ a), abs a)
relative_change _ _ = none

-- The assessment of a delta.
unfoldable pub assess : ℕ → Direction → ℤ → Assessment
assess epsilon higher_is_better delta =
    if ltb_ℤ (pos epsilon) delta
    then improved
    else (if ltb_ℤ delta (neg (pos epsilon)) then regressed else unchanged)
assess epsilon lower_is_better delta =
    if ltb_ℤ delta (neg (pos epsilon))
    then improved
    else (if ltb_ℤ (pos epsilon) delta then regressed else unchanged)
assess epsilon unknown delta = unchanged

-- `_compare_metric`
unfoldable pub compare_metric : ℕ → String → AggregateValue → AggregateValue → MetricComparison
compare_metric epsilon metric_id a b =
    let direction = direction_of metric_id in
    record {
      direction = direction;
      absolute_delta = absolute_change a b;
      relative_delta = relative_change a b;
      assessment = elim (absolute_change a b) [
        | none ↦ inconclusive
        | some delta ↦ assess epsilon direction delta
      ];
    }

-- (metric_id, aggregation, metric_version)
abbrev pub AggregateKey : Type 0
AggregateKey = String × String × String

abbrev pub same_key : AggregateKey → AggregateKey → Bool
same_key a b = str_eq a.0 b.0 && str_eq a.1 b.1 && str_eq a.2 b.2

-- The order of tuples of texts.
unfoldable pub key_le : AggregateKey → AggregateKey → Bool
key_le a b =
    is_lt (String.compare a.0 b.0)
    || (str_eq a.0 b.0
        && (is_lt (String.compare a.1 b.1) || (str_eq a.1 b.1 && is_le (String.compare a.2 b.2))))

abbrev pub Aggregates : Type 0
Aggregates = List (AggregateKey × AggregateValue)

-- `agg_lookup_a`: the last aggregate with a key counts.
unfoldable pub lookup_of : Aggregates → Aggregates → Aggregates
lookup_of d [] = d
lookup_of d ((k, v) ∷ rows) = lookup_of (assign same_key k v d) rows

-- `sorted(common_keys)`
unfoldable pub common_keys : Aggregates → Aggregates → List AggregateKey
common_keys a b = sorted key_le (keep (λ k. is_some (lookup same_key k b)) (keys same_key a))

-- The loop of `compare_runs`; `none` is the KeyError of a key that one side lacks.
unfoldable pub compare_keys :
    ℕ → Aggregates → Aggregates → List AggregateKey → Option (List MetricComparison)
compare_keys epsilon a b [] = some []
compare_keys epsilon a b (k ∷ ks) =
    let rest = compare_keys epsilon a b ks in
    elim (lookup same_key k a) [
      | none ↦ none
      | some value_a ↦ elim (lookup same_key k b) [
        | none ↦ none
        | some value_b ↦ elim rest [
          | none ↦ none
          | some cs ↦ some (compare_metric epsilon k.0 value_a value_b ∷ cs)
        ]
      ]
    ]

-- The counts of a comparison.
pub record Tally : Type 0 where
  pub improved_count : ℕ
  pub regressed_count : ℕ
  pub unchanged_count : ℕ
  pub inconclusive_count : ℕ

unfoldable pub count_one : Assessment → Tally → Tally
count_one improved t = record t { improved_count = suc t.improved_count }
count_one regressed t = record t { regressed_count = suc t.regressed_count }
count_one unchanged t = record t { unchanged_count = suc t.unchanged_count }
count_one inconclusive t = record t { inconclusive_count = suc t.inconclusive_count }

-- The counting in that loop.
unfoldable pub tally : Tally → List MetricComparison → Tally
tally t [] = t
tally t (m ∷ cs) = tally (count_one m.assessment t) cs

abbrev pub no_counts : Tally
no_counts = record {
  improved_count = 0;
  regressed_count = 0;
  unchanged_count = 0;
  inconclusive_count = 0;
}

-- The comparisons and the counts of `compare_runs`.
unfoldable pub compare_runs : ℕ → Aggregates → Aggregates → Option (List MetricComparison × Tally)
compare_runs epsilon rows_a rows_b =
    let a = lookup_of [] rows_a in
    let b = lookup_of [] rows_b in
    elim (compare_keys epsilon a b (common_keys a b)) [
      | none ↦ none
      | some cs ↦ some (cs, tally no_counts cs)
    ]

-- A result of a case, as `_paired_values` reads it: the value is given where it is a number.
pub record CaseValue : Type 0 where
  pub case_id : Option String
  pub metric_id : String
  pub metric_version : String
  pub value : Option ℤ

-- `values_a`
unfoldable pub values_of : String → String → List (String × ℤ) → List CaseValue → List (String × ℤ)
values_of metric version d [] = d
values_of metric version d (row ∷ rows) =
    let add : List (String × ℤ) = elim row.case_id [
      | none ↦ d
      | some id ↦ elim row.value [ none ↦ d | some v ↦ assign str_eq id v d ]
    ] in
    values_of metric version
      (if str_eq row.metric_id metric && str_eq row.metric_version version then add else d) rows

text_le : String → String → Bool
text_le a b = is_le (String.compare a b)

-- `case_ids`
unfoldable pub common_cases : List (String × ℤ) → List (String × ℤ) → List String
unfolding text_le
common_cases a b = sorted text_le (keep (λ k. is_some (lookup str_eq k b)) (keys str_eq a))

-- `[values[case_id] for case_id in case_ids]`; `none` is a KeyError.
unfoldable pub values_at : List (String × ℤ) → List String → Option (List ℤ)
values_at d [] = some []
values_at d (id ∷ ids) =
    let rest = values_at d ids in
    elim (lookup str_eq id d) [
      | none ↦ none
      | some v ↦ elim rest [ none ↦ none | some vs ↦ some (v ∷ vs) ]
    ]

-- `_paired_values`
unfoldable pub paired_values :
    String → String → List CaseValue → List CaseValue → Option (List ℤ) × Option (List ℤ)
paired_values metric version rows_a rows_b =
    let a = values_of metric version [] rows_a in
    let b = values_of metric version [] rows_b in
    let case_ids = common_cases a b in (values_at a case_ids, values_at b case_ids)
