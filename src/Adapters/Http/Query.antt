-- ===== src/Adapters/Http/Query.antt =====
-- `query` of src/rag_eval/adapters/generic_http.py.
--
-- The canonical models are one opaque type: `validate` takes a value to the model of a kind, or
-- refuses it. The client's request is a function of the method, the endpoint and the body; it
-- upper-cases the one and strips the slashes before the other.
use rag_eval.Prelude.{
  Bool, false, Option, none, some, is_some, String, List, [], ◌∷◌, if◌then◌else◌,
}
use rag_eval.Json.{Json, boolean, text, list, dict, Items, no_items, item, Fields, member}
use rag_eval.Adapters.Http.Paths.{
  AdapterError, protocol_error, value_error, Result, ok, err, ◌>>=◌, extract_path,
}
use rag_eval.Adapters.Http.Templates.{build_body}
use rag_eval.Adapters.Http.Transport.{Exchange, request_json}
use rag_eval.Adapters.Http.Protocol.{
  require_operation, method_of, endpoint_of, response_spec, path_in, optional_scalar_path,
  optional_bool_path, architecture_value, configuration_payload,
}

-- The models that a response is checked against.
pub data Kind : Type 0 where
  query_response retrieve_response citation retrieval_result usage claim assessment decision
        configuration target_capabilities :
      Kind

-- `class QueryResponse`, as `query` fills it in.
pub record QueryMapping (M : Type 0) : Type 0 where
  pub answer : String
  pub citations : List M
  pub retrieval : Option M
  pub usage : Option M
  pub claims : Option (List M)
  pub assessments : Option (List M)
  pub decision : Option M
  pub configuration : Option M
  pub target_run_id : Option String
  pub corpus_id : Option String
  pub architecture_name : Option String
  pub architecture_version : Option String
  pub insufficient_evidence : Option Bool

-- A response that is canonical, or that a mapping has made.
pub data QueryOutcome (M : Type 0) : Type 0 where
  canonical : M → QueryOutcome M
  mapped : QueryMapping M → QueryOutcome M

module _ {N M : Type 0} (validate : Kind → Json N → Option M) where
  unfoldable pub validated : AdapterError → Kind → Json N → Result M
  validated e kind v = elim (validate kind v) [ none ↦ err e | some m ↦ ok m ]

  validated_items : Kind → Items N → Result (List M)
  unfolding validated
  validated_items kind no_items = ok []
  validated_items kind (item v xs) =
      validated protocol_error kind v >>= λ m. validated_items kind xs >>= λ ms. ok (m ∷ ms)

  validated_list : Kind → Json N → Result (List M)
  unfolding validated_items
  validated_list kind (list xs) = validated_items kind xs
  validated_list kind _ = err protocol_error

  -- `_normalize_citations`
  unfoldable pub normalize_citations : Json N → Option String → Result (List M)
  unfolding validated_list
  normalize_citations payload none = ok []
  normalize_citations payload (some path) = extract_path path payload >>= validated_list citation

  -- `_optional_model_path`
  unfoldable pub optional_model_path : Kind → Json N → Option String → Result (Option M)
  unfolding validated
  optional_model_path kind payload none = ok none
  optional_model_path kind payload (some path) =
      extract_path path payload >>= λ v. validated protocol_error kind v >>= λ m. ok (some m)

  -- `_optional_list_model_path`
  unfoldable pub optional_list_model_path : Kind → Json N → Option String → Result (Option (List M))
  unfolding validated_list
  optional_list_model_path kind payload none = ok none
  optional_list_model_path kind payload (some path) =
      extract_path path payload >>= λ v. validated_list kind v >>= λ ms. ok (some ms)

  -- `_mapped_configuration`; the refusal of `Configuration` is a ValueError.
  unfoldable pub mapped_configuration : Json N → Fields N → Result (Option M)
  unfolding validated
  mapped_configuration payload rs =
      let path = path_in "configuration_path" rs in
      let architecture_path = path_in "architecture_path" rs in
      let filled = configuration_payload payload path architecture_path >>= λ fs.
      validated value_error configuration (dict fs) >>= λ m. ok (some m) in
      if is_some path then filled else (if is_some architecture_path then filled else ok none)

  unfoldable pub answer_text : Json N → Result String
  answer_text (text x) = ok x
  answer_text _ = err protocol_error

  -- The rest of the response, once the answer is read.
  unfoldable pub fill_response : Fields N → Json N → String → Result (QueryMapping M)
  fill_response rs payload answer = do
    citations ← normalize_citations payload (path_in "citations_path" rs)
    retrieval ← optional_model_path retrieval_result payload (path_in "retrieval_path" rs)
    used ← optional_model_path usage payload (path_in "usage_path" rs)
    claims ← optional_list_model_path claim payload (path_in "claims_path" rs)
    assessments ← optional_list_model_path assessment payload (path_in "assessments_path" rs)
    decided ← optional_model_path decision payload (path_in "decision_path" rs)
    configured ← mapped_configuration payload rs
    run_id ← optional_scalar_path payload (path_in "target_run_id_path" rs)
    corpus ← optional_scalar_path payload (path_in "corpus_id_path" rs)
    name ← architecture_value payload rs "name"
    version ← architecture_value payload rs "version"
    insufficient ← optional_bool_path payload (path_in "insufficient_evidence_path" rs)
    ok (record {
      answer = answer;
      citations = citations;
      retrieval = retrieval;
      usage = used;
      claims = claims;
      assessments = assessments;
      decision = decided;
      configuration = configured;
      target_run_id = run_id;
      corpus_id = corpus;
      architecture_name = name;
      architecture_version = version;
      insufficient_evidence = insufficient;
    })

  -- The mapping of a payload by `query`.
  unfoldable pub map_response : Fields N → Json N → Result (QueryMapping M)
  map_response rs payload = elim (path_in "answer_path" rs) [
    | none ↦ err protocol_error
    | some answer_path ↦
        (extract_path answer_path payload >>= answer_text) >>= fill_response rs payload
  ]

  unfoldable pub is_true : Option (Json N) → Bool
  is_true (some (boolean b)) = b
  is_true _ = false

  -- What `query` makes of a payload.
  unfoldable pub read_response : Fields N → Json N → Result (QueryOutcome M)
  unfolding is_true validated
  read_response rs payload =
      if is_true (member "canonical" rs)
      then (validated protocol_error query_response payload >>= λ m. ok (canonical m))
      else (map_response rs payload >>= λ q. ok (mapped q))

  -- `query`
  unfoldable pub query :
      (String → String → Fields N → Exchange N) → Fields N → Fields N → Result (QueryOutcome M)
  query send protocol request = do
    spec ← require_operation protocol "query"
    body ← build_body spec request
    method ← method_of spec
    endpoint ← endpoint_of spec
    payload ← request_json (send method endpoint body)
    rs ← response_spec spec
    read_response rs payload
