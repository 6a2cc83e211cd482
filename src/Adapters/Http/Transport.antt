-- ===== src/Adapters/Http/Transport.antt =====
-- One HTTP request of the declarative adapter: `_request_json` and `_status_category` of
-- src/rag_eval/adapters/generic_http.py, with the records of src/rag_eval/adapters/errors.py. The
-- messages and details of a record are left out.
use Prim.Native.String
use rag_eval.Prelude.{
  ℕ, ◌≡◌, ◌<◌, ◌==◌, leb, ltb, Bool, true, false, ◌&&◌, ◌||◌, Option, none, some, String, [], ◌∷◌,
  any, arith, if◌then◌else◌,
}
use rag_eval.Prelude.Int.{ℤ}
use rag_eval.Prelude.Decimal.{index_text}
use rag_eval.Json.{Json, dict, no_fields}
use rag_eval.Execution.Errors.{
  ErrorCategory, validation, authentication, authorization, not_found, conflict, network,
  connection, timeout, rate_limit, invalid_response, ErrorRecord, category_in,
}
use rag_eval.Execution.Retry.{RetryConfig, is_retryable_category, evaluate}
use rag_eval.Adapters.Http.Paths.{
  AdapterError, protocol_error, value_error, type_error, target_error, Result, ok, err,
}

-- The content of a response.
pub data Content (N : Type 0) : Type 0 where
  no_content not_json : Content N
  parsed : Json N → Content N

-- How the client's request ends: TimeoutException, ConnectError, another HTTPError, or a response
-- with its status.
pub data Exchange (N : Type 0) : Type 0 where
  timed_out connect_failed transport_failed : Exchange N
  answered : ℕ → Content N → Exchange N

-- `_status_category`
unfoldable pub status_category : ℕ → ErrorCategory
status_category status =
    if status == 400
    then validation
    else (if status == 401
        then authentication
        else (if status == 403
            then authorization
            else (if status == 404
                then not_found
                else (if status == 409
                    then conflict
                    else (if status == 429
                        then rate_limit
                        else (if leb 500 status then connection else invalid_response))))))

abbrev pub failure : ErrorCategory → String → Bool → Option ℕ → ErrorRecord
failure category code retryable http_status = record {
  category = category;
  code = code;
  message = "";
  retryable = retryable;
  retry_after_ms = none;
  http_status = http_status;
}

-- `response.is_error`
abbrev pub is_error : ℕ → Bool
is_error status = leb 400 status && ltb status 600

-- `response.status_code in {429, 502, 503, 504}`
abbrev pub is_retryable_status : ℕ → Bool
is_retryable_status status = any (λ s. status == s) (429 ∷ 502 ∷ 503 ∷ 504 ∷ [])

module _ {N : Type 0} where
  content_of : Content N → Result (Json N)
  content_of no_content = ok (dict no_fields)
  content_of not_json = err protocol_error
  content_of (parsed v) = ok v

  -- `_request_json`
  unfoldable pub request_json : Exchange N → Result (Json N)
  unfolding content_of
  request_json timed_out = err (target_error (failure timeout "GENERIC_HTTP_TIMEOUT" true none))
  request_json connect_failed =
      err (target_error (failure connection "GENERIC_HTTP_CONNECTION_ERROR" true none))
  request_json transport_failed =
      err (target_error (failure network "GENERIC_HTTP_TRANSPORT_ERROR" false none))
  request_json (answered status body) =
      let read = content_of body in
      if is_error status
      then err (
          target_error (
            failure (status_category status) (String.◌++◌ "HTTP_" (index_text status))
              (is_retryable_status status) (some status)))
      else read

-- `to_error_record`; a ValueError or TypeError has none.
unfoldable pub to_error_record : AdapterError → Option ErrorRecord
to_error_record protocol_error = some (failure invalid_response "TARGET_PROTOCOL_ERROR" false none)
to_error_record value_error = none
to_error_record type_error = none
to_error_record AdapterError.unsupported_capability =
    some (failure ErrorCategory.unsupported_capability "UNSUPPORTED_CAPABILITY" false none)
to_error_record (target_error r) = some r

-- Whether a failed exchange is worth another attempt.
abbrev pub worth_retrying : {N : Type 0} → RetryConfig → Exchange N → Bool
worth_retrying c timed_out = true
worth_retrying c connect_failed = true
worth_retrying c transport_failed = true
worth_retrying c (answered status body) =
    if is_error status
    then is_retryable_status status || any (λ s. status == s) c.retryable_http_statuses
    else category_in invalid_response c.retryable_categories

-- While attempts are left, the retry policy repeats a failed request of the adapter exactly where no
-- response came, where its status is 429, 502, 503, 504 or a configured one, or where a response
-- that is no error is not JSON and the configuration lists the category INVALID_RESPONSE.
pub request_json-evaluate :
    {N : Type 0} (uniform : ℕ → ℤ) (c : RetryConfig) (exchange : Exchange N) (e : AdapterError)
    (r : ErrorRecord) (attempt : ℕ)
    → attempt < c.max_attempts
    → request_json exchange ≡ err e
    → to_error_record e ≡ some r
    → (evaluate uniform c r attempt).should_retry ≡ worth_retrying c exchange
unfolding request_json to_error_record evaluate is_retryable_category
request_json-evaluate uniform c timed_out e r attempt left h k = ground arith
request_json-evaluate uniform c connect_failed e r attempt left h k = ground arith
request_json-evaluate uniform c transport_failed e r attempt left h k = ground arith
request_json-evaluate uniform c (answered status body) e r attempt left h k = ground arith
