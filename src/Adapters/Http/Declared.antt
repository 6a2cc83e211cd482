-- ===== src/Adapters/Http/Declared.antt =====
-- What the inferred capabilities of a target say of its operations
-- (src/rag_eval/adapters/generic_http.py).
use rag_eval.Prelude.{
  ◌≡◌, refl, sym, ap, ◌∙◌, true, false, Option, none, some, is_some, String, ◌⊎◌, inl, inr, arith,
}
use rag_eval.Json.{Json, boolean, Fields, member}
use rag_eval.Adapters.Http.Paths.{unsupported_capability, Result, ok, err, ◌>>=◌, bind_parts}
use rag_eval.Adapters.Http.Transport.{Exchange}
use rag_eval.Adapters.Http.Protocol.{operation_spec, require_spec, require_operation}
use rag_eval.Adapters.Http.Query.{Kind, query}
use rag_eval.Adapters.Http.Retrieve.{
  retrieve, response_of, inferred_fields, capability_fields, from_entries,
}

-- An operation is reported and declared, or it is not reported and its result is the refusal.
abbrev pub Told : {N A : Type 0} → String → String → Fields N → Fields N → Result A → Type 0
Told key name fs protocol result =
    ((member key fs ≡ some (boolean true))
      × ((spec : Fields _) × (require_operation protocol name ≡ ok spec)))
    ⊎ ((member key fs ≡ some (boolean false)) × (result ≡ err unsupported_capability))

module _ {N : Type 0} where
  require_operation_of :
      (protocol : Fields N) (name : String) (found : Option (Fields N))
      → operation_spec protocol name ≡ ok found
      → require_operation protocol name ≡ require_spec found
  unfolding require_operation
  require_operation_of protocol name found h = rw h refl

  inferred_fields-query :
      (target : Json N) (q r : Option (Fields N)) (rs : Fields N)
      → member "query" (inferred_fields target q r rs) ≡ some (boolean (is_some q))
  unfolding member inferred_fields from_entries
  inferred_fields-query target q r rs = refl

  inferred_fields-retrieval :
      (target : Json N) (q r : Option (Fields N)) (rs : Fields N)
      → member "retrieval" (inferred_fields target q r rs) ≡ some (boolean (is_some r))
  unfolding member inferred_fields from_entries
  inferred_fields-retrieval target q r rs = refl

module _ {N A : Type 0} where
  refused :
      (protocol : Fields N) (name : String) (rest : Fields N → Result A)
      → operation_spec protocol name ≡ ok none
      → (require_operation protocol name >>= rest) ≡ err unsupported_capability
  unfolding require_spec
  refused protocol name rest h = rw (require_operation_of protocol name none h) refl

  tell :
      (key name : String) (fs protocol : Fields N) (found : Option (Fields N))
      (rest : Fields N → Result A)
      → member key fs ≡ some (boolean (is_some found))
      → operation_spec protocol name ≡ ok found
      → Told key name fs protocol (require_operation protocol name >>= rest)
  unfolding require_spec
  tell key name fs protocol none rest told h = inr (told, refused protocol name rest h)
  tell key name fs protocol (some spec) rest told h =
      inl (told, (spec, require_operation_of protocol name (some spec) h))

module _ {N M : Type 0} (validate : Kind → Json N → Option M) where
  -- Where the protocol configures no capabilities, the reported ones say query, and retrieval, exactly
  -- as the adapter behaves: an operation that they report is declared, and one that they do not report
  -- ends with the unsupported-capability error for every request.
  pub capability_fields_tell :
      (send : String → String → Fields N → Exchange N) (target : Json N)
      (protocol request fs : Fields N)
      → member "capabilities" protocol ≡ none
      → capability_fields target protocol ≡ ok fs
      → Told "query" "query" fs protocol (query validate send protocol request)
        × Told "retrieval" "retrieve" fs protocol (retrieve validate send protocol request)
  unfolding capability_fields query retrieve
  capability_fields_tell send target protocol request fs unset h =
      let (q, asked, h1) = bind_parts (operation_spec protocol "query") _ fs h in
      let (r, retrieved, h2) = bind_parts (operation_spec protocol "retrieve") _ fs h1 in
      let (rs, mapping, h3) = bind_parts (response_of q) _ fs h2 in
      let same : inferred_fields target q r rs ≡ fs = ground (arith, unset, h3) in
      (
        tell "query" "query" fs protocol q _
            (ap (member "query") (sym same) ∙ inferred_fields-query target q r rs) asked,
        tell "retrieval" "retrieve" fs protocol r _
            (ap (member "retrieval") (sym same) ∙ inferred_fields-retrieval target q r rs)
            retrieved,
      )
