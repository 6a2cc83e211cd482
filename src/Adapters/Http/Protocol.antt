-- ===== src/Adapters/Http/Protocol.antt =====
-- The declared operations of a target and the values that a response mapping reads, of
-- src/rag_eval/adapters/generic_http.py.
use rag_eval.Prelude.{Bool, Option, none, some, String, str_eq, if◌then◌else◌}
use rag_eval.Json.{Json, null, boolean, text, dict, Fields, no_fields, field, member}
use rag_eval.Adapters.Http.Paths.{
  protocol_error, value_error, unsupported_capability, Result, ok, err, ◌>>=◌, extract_path,
}

module _ {N : Type 0} where
  spec_of : Option (Json N) → Result (Option (Fields N))
  spec_of none = ok none
  spec_of (some null) = ok none
  spec_of (some (dict fs)) = ok (some fs)
  spec_of (some _) = err value_error

  -- `_operation_spec`
  unfoldable pub operation_spec : Fields N → String → Result (Option (Fields N))
  unfolding spec_of
  operation_spec protocol name = spec_of (member name protocol)

  unfoldable pub require_spec : Option (Fields N) → Result (Fields N)
  require_spec none = err unsupported_capability
  require_spec (some fs) = ok fs

  -- `_require_operation`
  unfoldable pub require_operation : Fields N → String → Result (Fields N)
  unfolding require_spec
  require_operation protocol name = operation_spec protocol name >>= require_spec

  nonempty : Json N → Result String
  nonempty (text x) = if str_eq x "" then err value_error else ok x
  nonempty _ = err value_error

  -- `_method`, without the upper-casing.
  unfoldable pub method_of : Fields N → Result String
  unfolding nonempty
  method_of spec = elim (member "method" spec) [ none ↦ ok "POST" | some v ↦ nonempty v ]

  -- `_endpoint`
  unfoldable pub endpoint_of : Fields N → Result String
  unfolding nonempty
  endpoint_of spec = elim (member "endpoint" spec) [ none ↦ err value_error | some v ↦ nonempty v ]

  fields_or_error : Json N → Result (Fields N)
  fields_or_error (dict fs) = ok fs
  fields_or_error _ = err value_error

  -- `_response_spec`
  unfoldable pub response_spec : Fields N → Result (Fields N)
  unfolding fields_or_error
  response_spec spec = elim (member "response" spec) [
    | none ↦ ok no_fields
    | some v ↦ fields_or_error v
  ]

  as_text : Option (Json N) → Option String
  as_text (some (text x)) = some x
  as_text _ = none

  -- A path of a response mapping, where it is a text.
  unfoldable pub path_in : String → Fields N → Option String
  unfolding as_text
  path_in key fs = as_text (member key fs)

  text_or_null : Json N → Result (Option String)
  text_or_null null = ok none
  text_or_null (text x) = ok (some x)
  text_or_null _ = err protocol_error

  -- `_optional_scalar_path`
  unfoldable pub optional_scalar_path : Json N → Option String → Result (Option String)
  unfolding text_or_null
  optional_scalar_path payload none = ok none
  optional_scalar_path payload (some path) = extract_path path payload >>= text_or_null

  bool_or_null : Json N → Result (Option Bool)
  bool_or_null null = ok none
  bool_or_null (boolean b) = ok (some b)
  bool_or_null _ = err protocol_error

  -- `_optional_bool_path`
  unfoldable pub optional_bool_path : Json N → Option String → Result (Option Bool)
  unfolding bool_or_null
  optional_bool_path payload none = ok none
  optional_bool_path payload (some path) = extract_path path payload >>= bool_or_null

  text_at : String → Json N → Result (Option String)
  text_at key (dict fs) = ok (path_in key fs)
  text_at key _ = err protocol_error

  -- `_architecture_value`
  unfoldable pub architecture_value : Json N → Fields N → String → Result (Option String)
  unfolding text_at
  architecture_value payload rs key = elim (path_in "architecture_path" rs) [
    | none ↦ ok none
    | some path ↦ extract_path path payload >>= text_at key
  ]

  -- `d[k] = v`
  unfoldable pub put : String → Json N → Fields N → Fields N
  put k v no_fields = field k v no_fields
  put k v (field j w fs) = if str_eq j k then field j v fs else field j w (put k v fs)

  protocol_dict : Json N → Result (Fields N)
  protocol_dict (dict fs) = ok fs
  protocol_dict _ = err protocol_error

  or_null : Option (Json N) → Json N
  or_null none = null
  or_null (some v) = v

  -- `config_payload` of `_mapped_configuration`
  unfoldable pub configuration_payload : Json N → Option String → Option String → Result (Fields N)
  unfolding protocol_dict or_null
  configuration_payload payload path architecture_path =
      (elim path [ none ↦ ok no_fields | some p ↦ extract_path p payload >>= protocol_dict ])
      >>= λ base. elim architecture_path [
        | none ↦ ok base
        | some p ↦ (extract_path p payload >>= protocol_dict) >>= λ architecture. ok (
            put "architecture_version" (or_null (member "version" architecture))
              (put "architecture_name" (or_null (member "name" architecture)) base))
      ]
