-- ===== src/Adapters/Http/Answers.antt =====
-- Where the answer of a mapped query comes from (src/rag_eval/adapters/generic_http.py).
use rag_eval.Prelude.{
  ◌≡◌, sym, ap, ◌∙◌, Option, some, String, arith, inl, inr, Option-cases, Bool-cases,
}
use rag_eval.Json.{Json, null, boolean, number, text, list, dict, Fields, member}
use rag_eval.Adapters.Http.Paths.{ok, ◌>>=◌, bind_parts, extract_path}
use rag_eval.Adapters.Http.Templates.{build_body}
use rag_eval.Adapters.Http.Transport.{Exchange, request_json}
use rag_eval.Adapters.Http.Protocol.{
  require_operation, method_of, endpoint_of, response_spec, path_in, optional_scalar_path,
  optional_bool_path, architecture_value,
}
use rag_eval.Adapters.Http.Query.{
  Kind, query_response, retrieval_result, usage, claim, assessment, decision, QueryMapping, mapped,
  is_true, normalize_citations, optional_model_path, optional_list_model_path, mapped_configuration,
  answer_text, fill_response, map_response, read_response, query,
}

module _ {N M : Type 0} (validate : Kind → Json N → Option M) where
  answer_text_lem : (v : Json N) (x : String) → answer_text validate v ≡ ok x → v ≡ text x
  unfolding answer_text
  answer_text_lem null x h = absurd (ground arith)
  answer_text_lem (boolean b) x h = absurd (ground arith)
  answer_text_lem (number n) x h = absurd (ground arith)
  answer_text_lem (text y) x h = ground arith
  answer_text_lem (list xs) x h = absurd (ground arith)
  answer_text_lem (dict fs) x h = absurd (ground arith)

  fill_response-answer :
      (rs : Fields N) (payload : Json N) (answer : String) (q : QueryMapping M)
      → fill_response validate rs payload answer ≡ ok q
      → q.answer ≡ answer
  unfolding fill_response
  fill_response-answer rs payload answer q h =
      let (citations, done1, h1) =
        bind_parts (normalize_citations validate payload (path_in "citations_path" rs)) _ q h in
      let (retrieval, done2, h2) =
        bind_parts
          (optional_model_path validate retrieval_result payload (path_in "retrieval_path" rs)) _ q
          h1 in
      let (used, done3, h3) =
        bind_parts (optional_model_path validate usage payload (path_in "usage_path" rs)) _ q h2 in
      let (claims, done4, h4) =
        bind_parts (optional_list_model_path validate claim payload (path_in "claims_path" rs)) _ q
          h3 in
      let (assessments, done5, h5) =
        bind_parts
          (optional_list_model_path validate assessment payload (path_in "assessments_path" rs)) _ q
          h4 in
      let (decided, done6, h6) =
        bind_parts (optional_model_path validate decision payload (path_in "decision_path" rs)) _ q
          h5 in
      let (configured, done7, h7) = bind_parts (mapped_configuration validate payload rs) _ q h6 in
      let (run_id, done8, h8) =
        bind_parts (optional_scalar_path payload (path_in "target_run_id_path" rs)) _ q h7 in
      let (corpus, done9, h9) =
        bind_parts (optional_scalar_path payload (path_in "corpus_id_path" rs)) _ q h8 in
      let (name, done10, h10) = bind_parts (architecture_value payload rs "name") _ q h9 in
      let (version, done11, h11) = bind_parts (architecture_value payload rs "version") _ q h10 in
      let (insufficient, done12, h12) =
        bind_parts (optional_bool_path payload (path_in "insufficient_evidence_path" rs)) _ q h11 in
      ground arith

  map_response-answer :
      (rs : Fields N) (payload : Json N) (q : QueryMapping M)
      → map_response validate rs payload ≡ ok q
      → (path : String) × (path_in "answer_path" rs ≡ some path)
        × (extract_path path payload ≡ ok (text q.answer))
  unfolding map_response
  map_response-answer rs payload q h = elim (Option-cases (path_in "answer_path" rs)) [
    | inl unset ↦ absurd (ground arith)
    | inr (path, set) ↦
        let chain : ((extract_path path payload >>= answer_text validate)
              >>= fill_response validate rs payload)
            ≡ ok q =
          ground arith in
        let (answer, read, filled) =
          bind_parts (extract_path path payload >>= answer_text validate) _ q chain in
        let (v, found, is_text) = bind_parts (extract_path path payload) _ answer read in
        let same = fill_response-answer rs payload answer q filled in
        (path, set, found ∙ ap ok (answer_text_lem v answer is_text ∙ ap text (sym same)))
  ]

  -- A query that is mapped was sent once with the body built from the configured template, and its
  -- answer is the text at the configured path of the response's payload.
  pub query-answer :
      (send : String → String → Fields N → Exchange N) (protocol request : Fields N)
      (q : QueryMapping M)
      → query validate send protocol request ≡ ok (mapped q)
      → (spec : Fields N) × (body : Fields N) × (method : String) × (endpoint : String)
        × (payload : Json N) × (rs : Fields N) × (path : String) × (require_operation protocol
              "query"
            ≡ ok spec)
        × (build_body spec request ≡ ok body)
        × (request_json (send method endpoint body) ≡ ok payload)
        × (response_spec spec ≡ ok rs)
        × (path_in "answer_path" rs ≡ some path)
        × (extract_path path payload ≡ ok (text q.answer))
  unfolding query read_response
  query-answer send protocol request q h =
      let (spec, found, h1) = bind_parts (require_operation protocol "query") _ (mapped q) h in
      let (body, built, h2) = bind_parts (build_body spec request) _ (mapped q) h1 in
      let (method, called, h3) = bind_parts (method_of spec) _ (mapped q) h2 in
      let (endpoint, addressed, h4) = bind_parts (endpoint_of spec) _ (mapped q) h3 in
      let (payload, answered, h5) =
        bind_parts (request_json (send method endpoint body)) _ (mapped q) h4 in
      let (rs, mapping, h6) = bind_parts (response_spec spec) _ (mapped q) h5 in
      elim (Bool-cases (is_true validate (member "canonical" rs))) [
        | inl own ↦ elim (Option-cases (validate query_response payload)) [
          | inl refused ↦ absurd (ground arith)
          | inr (m, valid) ↦ absurd (ground arith)
        ]
        | inr other ↦
            let (q', done, same) =
              bind_parts (map_response validate rs payload) (λ (x : QueryMapping M). ok (mapped x))
                (mapped q) (ground arith) in
            let equal : q' ≡ q = ground arith in
            let (path, set, read) = map_response-answer rs payload q (done ∙ ap ok equal) in
            (
              spec, body, method, endpoint, payload, rs, path, found, built, answered, mapping, set,
              read,
            )
      ]
