-- ===== src/Examples/Http.antt =====
-- Requests of the declarative HTTP adapter (src/rag_eval/adapters/generic_http.py).
use rag_eval.Prelude.{ℕ, ◌≡◌, refl, false, Option, none, some, String, [], ◌∷◌, arith}
use rag_eval.Prelude.Int.{pos}
use rag_eval.Prelude.Decimal.{index_text}
use rag_eval.Json.{
  Json, null, boolean, text, list, dict, no_items, item, Fields, no_fields, field, member,
}
use rag_eval.Execution.Errors.{ErrorRecord, connection}
use rag_eval.Execution.Retry.{RetryConfig, evaluate}
use rag_eval.Adapters.Http.Paths.{
  target_error, ok, err, skip, split_dots, segments_of, child, extract, extract_path,
}
use rag_eval.Adapters.Http.Templates.{
  render_text, render_template, require_dict, build_body, template_references,
}
use rag_eval.Adapters.Http.Rendered.{IsBody, build_body-IsBody}
use rag_eval.Adapters.Http.Transport.{
  Exchange, answered, not_json, parsed, status_category, failure, request_json, to_error_record,
  worth_retrying, request_json-evaluate,
}
use rag_eval.Adapters.Http.Protocol.{
  require_operation, response_spec, path_in, operation_spec, method_of, endpoint_of,
  optional_scalar_path, optional_bool_path, architecture_value,
}
use rag_eval.Adapters.Http.Query.{
  Kind, QueryMapping, mapped, normalize_citations, optional_model_path, optional_list_model_path,
  mapped_configuration, answer_text, fill_response, map_response, is_true, read_response, query,
}
use rag_eval.Adapters.Http.Retrieve.{
  retrieve, response_of, inferred_fields, capability_fields, from_entries,
}
use rag_eval.Adapters.Http.Declared.{Told, capability_fields_tell}

abbrev request : Fields ℕ
request = field "request_id" (text "r1") (field "query" (text "why?") no_fields)

abbrev template : Json ℕ
template = dict (field "input" (list (item (text "$request.query") no_items)) no_fields)

abbrev body : Fields ℕ
body = field "input" (list (item (text "why?") no_items)) no_fields

abbrev spec : Fields ℕ
spec = field "endpoint" (text "/ask") (
    field "request" (dict (field "body" template no_fields))
      (field "response" (dict (field "answer_path" (text "$.result.answer") no_fields)) no_fields))

body_built : build_body spec request ≡ ok body
unfolding build_body render_template render_text require_dict extract_path extract child segments_of
    split_dots skip member
body_built = refl

build_body-IsBody_example : IsBody request spec body
build_body-IsBody_example = build_body-IsBody request spec body body_built

abbrev payload : Json ℕ
payload = dict (field "result" (dict (field "answer" (text "because") no_fields)) no_fields)

abbrev mapping : QueryMapping ℕ
mapping = record {
  answer = "because";
  citations = [];
  retrieval = none;
  usage = none;
  claims = none;
  assessments = none;
  decision = none;
  configuration = none;
  target_run_id = none;
  corpus_id = none;
  architecture_name = none;
  architecture_version = none;
  insufficient_evidence = none;
}

abbrev accept_all : Kind → Json ℕ → Option ℕ
accept_all kind v = some 0

abbrev send : String → String → Fields ℕ → Exchange ℕ
send method endpoint sent = answered 200 (parsed payload)

abbrev protocol : Fields ℕ
protocol = field "query" (dict spec) no_fields

query_mapped : query accept_all send protocol request ≡ ok (mapped mapping)
unfolding query require_operation operation_spec build_body render_template render_text require_dict
    extract_path extract child segments_of split_dots skip member method_of endpoint_of request_json
    response_spec read_response is_true map_response path_in answer_text fill_response
    normalize_citations optional_model_path optional_list_model_path mapped_configuration
    optional_scalar_path architecture_value optional_bool_path
query_mapped = refl

abbrev retries : RetryConfig
retries = record {
  max_attempts = 3;
  strategy = "fixed";
  initial_delay = 100;
  maximum_delay = 1000;
  retryable_http_statuses = 500 ∷ [];
  retryable_categories = [];
}

abbrev server_error : ErrorRecord
server_error = failure connection "HTTP_500" false (some 500)

server_error_raised : request_json {N = ℕ} (answered 500 not_json) ≡ err (target_error server_error)
unfolding request_json status_category index_text
server_error_raised = refl

server_error_record : to_error_record (target_error server_error) ≡ some server_error
unfolding to_error_record
server_error_record = refl

request_json-evaluate_example :
    (evaluate (λ capped. pos 0) retries server_error 1).should_retry
    ≡ worth_retrying {N = ℕ} retries (answered 500 not_json)
request_json-evaluate_example =
    request_json-evaluate (λ capped. pos 0) retries (answered 500 not_json)
      (target_error server_error) server_error 1 (omega arith) server_error_raised
      server_error_record

-- The target is asked without a template, with its whole history, and reports none.
abbrev plain_protocol : Fields ℕ
plain_protocol = field "query" (dict (field "endpoint" (text "/ask") no_fields)) no_fields

abbrev plain_capabilities : Fields ℕ
plain_capabilities =
    inferred_fields null (some (field "endpoint" (text "/ask") no_fields)) none no_fields

plain_reported : capability_fields null plain_protocol ≡ ok plain_capabilities
unfolding capability_fields operation_spec response_of response_spec member
plain_reported = refl

plain_unconfigured : member "capabilities" plain_protocol ≡ none
unfolding member
plain_unconfigured = refl

history_not_reported : member "conversation_history" plain_capabilities ≡ some (boolean false)
unfolding member inferred_fields from_entries template_references
history_not_reported = refl

capability_fields_tell_example :
    Told "query" "query" plain_capabilities plain_protocol
      (query accept_all send plain_protocol request)
    × Told "retrieval" "retrieve" plain_capabilities plain_protocol
        (retrieve accept_all send plain_protocol request)
capability_fields_tell_example =
    capability_fields_tell accept_all send null plain_protocol request plain_capabilities
      plain_unconfigured plain_reported
