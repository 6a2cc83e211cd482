-- ===== src/Adapters/Http/Retrieve.antt =====
-- `retrieve` and `capabilities` of src/rag_eval/adapters/generic_http.py.
use rag_eval.Prelude.{
  Bool, false, Option, none, some, is_some, String, List, [], ◌∷◌, if◌then◌else◌,
}
use rag_eval.Json.{Json, boolean, text, dict, Fields, no_fields, field, member, has_key}
use rag_eval.Adapters.Http.Paths.{protocol_error, Result, ok, err, ◌>>=◌, extract_path}
use rag_eval.Adapters.Http.Templates.{build_body, template_references}
use rag_eval.Adapters.Http.Transport.{Exchange, request_json}
use rag_eval.Adapters.Http.Protocol.{
  operation_spec, require_operation, method_of, endpoint_of, response_spec, path_in,
  optional_scalar_path, architecture_value, put,
}
use rag_eval.Adapters.Http.Query.{
  Kind, retrieve_response, retrieval_result, usage, target_capabilities, validated, is_true,
  optional_model_path, mapped_configuration,
}

-- `class RetrieveResponse`, as `retrieve` fills it in.
pub record RetrieveMapping (M : Type 0) : Type 0 where
  pub retrieval : M
  pub usage : Option M
  pub configuration : Option M
  pub target_run_id : Option String
  pub corpus_id : Option String
  pub architecture_name : Option String
  pub architecture_version : Option String

pub data RetrieveOutcome (M : Type 0) : Type 0 where
  canonical_retrieval : M → RetrieveOutcome M
  mapped_retrieval : RetrieveMapping M → RetrieveOutcome M

module _ {N M : Type 0} (validate : Kind → Json N → Option M) where
  -- The rest of the response, once the retrieval is read.
  unfoldable pub fill_retrieve : Fields N → Json N → M → Result (RetrieveMapping M)
  fill_retrieve rs payload retrieval = do
    used ← optional_model_path validate usage payload (path_in "usage_path" rs)
    configured ← mapped_configuration validate payload rs
    run_id ← optional_scalar_path payload (path_in "target_run_id_path" rs)
    corpus ← optional_scalar_path payload (path_in "corpus_id_path" rs)
    name ← architecture_value payload rs "name"
    version ← architecture_value payload rs "version"
    ok (record {
      retrieval = retrieval;
      usage = used;
      configuration = configured;
      target_run_id = run_id;
      corpus_id = corpus;
      architecture_name = name;
      architecture_version = version;
    })

  -- The mapping of a payload by `retrieve`.
  unfoldable pub map_retrieve : Fields N → Json N → Result (RetrieveMapping M)
  map_retrieve rs payload = elim (path_in "retrieval_path" rs) [
    | none ↦ err protocol_error
    | some path ↦
        (extract_path path payload >>= validated validate protocol_error retrieval_result)
        >>= fill_retrieve rs payload
  ]

  -- What `retrieve` makes of a payload.
  unfoldable pub read_retrieve : Fields N → Json N → Result (RetrieveOutcome M)
  read_retrieve rs payload =
      if is_true validate (member "canonical" rs)
      then (validated validate protocol_error retrieve_response payload >>= λ m.
          ok (canonical_retrieval m))
      else (map_retrieve rs payload >>= λ r. ok (mapped_retrieval r))

  -- `retrieve`
  unfoldable pub retrieve :
      (String → String → Fields N → Exchange N) → Fields N → Fields N → Result (RetrieveOutcome M)
  retrieve send protocol request = do
    spec ← require_operation protocol "retrieve"
    body ← build_body spec request
    method ← method_of spec
    endpoint ← endpoint_of spec
    payload ← request_json (send method endpoint body)
    rs ← response_spec spec
    read_retrieve rs payload

module _ {N : Type 0} where
  -- `query_response`
  unfoldable pub response_of : Option (Fields N) → Result (Fields N)
  response_of none = ok no_fields
  response_of (some spec) = response_spec spec

  -- `conversation_history`
  names_history : Option (Fields N) → Bool
  names_history none = false
  names_history (some spec) = template_references "$request.history" (dict spec)

  -- A dict display.
  unfoldable pub from_entries : List (String × Json N) → Fields N
  from_entries [] = no_fields
  from_entries ((k, v) ∷ entries) = field k v (from_entries entries)

  -- The payload of `capabilities`, from the specs of the query and the retrieval and the response
  -- mapping of the query, which `_query_response_has` reads again.
  unfoldable pub inferred_fields :
      Json N → Option (Fields N) → Option (Fields N) → Fields N → Fields N
  unfolding names_history from_entries
  inferred_fields target query_spec retrieve_spec rs = from_entries (
      ("protocol_version", text "1.0")
      ∷ ("target", target)
      ∷ ("query", boolean (is_some query_spec))
      ∷ ("answer", boolean (is_some (path_in "answer_path" rs)))
      ∷ ("streaming", boolean false)
      ∷ ("conversation_history", boolean (names_history query_spec))
      ∷ ("retrieval", boolean (is_some retrieve_spec))
      ∷ ("retrieval_stages", boolean false)
      ∷ ("document_ingestion", boolean false)
      ∷ ("chunk_ingestion", boolean false)
      ∷ ("context_injection", boolean false)
      ∷ ("citations", boolean (has_key "citations_path" rs))
      ∷ ("claims", boolean (has_key "claims_path" rs))
      ∷ ("assessments", boolean (has_key "assessments_path" rs))
      ∷ ("decision", boolean (has_key "decision_path" rs))
      ∷ ("confidence", boolean false)
      ∷ ("target_trace", boolean false)
      ∷ ("effective_configuration", boolean false)
      ∷ ("idempotency", boolean false)
      ∷ ("request_recovery", boolean false)
      ∷ [])

  -- `d.update(e)`
  unfoldable pub update : Fields N → Fields N → Fields N
  update fs no_fields = fs
  update fs (field k v gs) = update (put k v fs) gs

  -- `payload.update(dict(configured))`; the key "target" is never missing after it.
  configured_fields : Option (Json N) → Fields N → Fields N
  configured_fields (some (dict gs)) fs = update fs gs
  configured_fields _ fs = fs

  -- The payload of `capabilities` before its validation.
  unfoldable pub capability_fields : Json N → Fields N → Result (Fields N)
  unfolding configured_fields
  capability_fields target protocol = do
    query_spec ← operation_spec protocol "query"
    retrieve_spec ← operation_spec protocol "retrieve"
    rs ← response_of query_spec
    ok (
        configured_fields (member "capabilities" protocol)
          (inferred_fields target query_spec retrieve_spec rs))

  -- `capabilities`
  unfoldable pub capabilities :
      {M : Type 0} → (Kind → Json N → Option M) → Json N → Fields N → Result M
  capabilities validate target protocol = capability_fields target protocol >>= λ fs.
      validated validate protocol_error target_capabilities (dict fs)
