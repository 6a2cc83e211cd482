-- ===== src/Adapters/Http/Health.antt =====
-- `health` and the unsupported operations of src/rag_eval/adapters/generic_http.py.
--
-- Of the numbers of a JSON value the section knows which are equal, and which are 0 or 1 and so equal
-- to a Boolean, as Python compares them.
use package.text.Mathlib.Text.{starts_with}
use rag_eval.Prelude.{
  ℕ, suc, ◌≡◌, subst, ◌⊎◌, arith, eq_iff, Bool, true, false, ◌&&◌, ◌||◌, ◌==◌, Option, none, some,
  String, str_eq, if◌then◌else◌,
}
use rag_eval.Json.{
  Json, null, boolean, number, text, list, dict, Items, no_items, item, Fields, no_fields, field,
  member, has_key,
}
use rag_eval.Adapters.Http.Paths.{
  protocol_error, type_error, Result, ok, err, ◌>>=◌, bind_parts, extract_path,
}
use rag_eval.Adapters.Http.Transport.{Exchange, request_json}
use rag_eval.Adapters.Http.Protocol.{operation_spec, method_of, endpoint_of, response_spec, path_in}

-- `needle in hay`
unfoldable pub contains_text : String → String → Bool
contains_text needle String.[] = str_eq needle ""
contains_text needle (String.◌∷◌ c s) =
    starts_with (String.◌∷◌ c s) needle || contains_text needle s

abbrev pub same_bool : Bool → Bool → Bool
same_bool true b = b
same_bool false true = false
same_bool false false = true

abbrev pub same_flag : Option Bool → Bool → Bool
same_flag none b = false
same_flag (some a) b = same_bool a b

module _ {N : Type 0} where
  unfoldable pub size : Fields N → ℕ
  size no_fields = 0
  size (field k v fs) = suc (size fs)

-- What Python's `==` sees of numbers.
pub record Numbers (N : Type 0) : Type 0 where
  pub equal_numbers : N → N → Bool
  pub as_flag : N → Option Bool

module _ {N : Type 0} (numbers : Numbers N) where
  -- `==`
  unfoldable mutual
    pub same_json : Json N → Json N → Bool
    same_json null null = true
    same_json (boolean a) (boolean b) = same_bool a b
    same_json (boolean a) (number n) = same_flag (numbers.as_flag n) a
    same_json (number m) (boolean b) = same_flag (numbers.as_flag m) b
    same_json (number m) (number n) = numbers.equal_numbers m n
    same_json (text x) (text y) = str_eq x y
    same_json (list xs) (list ys) = same_items xs ys
    same_json (dict fs) (dict gs) = size fs == size gs && fields_in fs gs
    same_json _ _ = false

    pub same_items : Items N → Items N → Bool
    same_items no_items no_items = true
    same_items (item v xs) (item w ys) = same_json v w && same_items xs ys
    same_items _ _ = false

    pub fields_in : Fields N → Fields N → Bool
    fields_in no_fields gs = true
    fields_in (field k v fs) gs =
        (elim (member k gs) [ none ↦ false | some w ↦ same_json v w ]) && fields_in fs gs

  any_same : Json N → Items N → Bool
  any_same v no_items = false
  any_same v (item w ws) = same_json v w || any_same v ws

  -- `value in container`; a TypeError where the container is none, or the value cannot be a key.
  unfoldable pub value_in : Json N → Json N → Result Bool
  unfolding any_same
  value_in v (list ws) = ok (any_same v ws)
  value_in (text x) (text hay) = ok (contains_text x hay)
  value_in (text x) (dict fs) = ok (has_key x fs)
  value_in null (dict fs) = ok false
  value_in (boolean b) (dict fs) = ok false
  value_in (number n) (dict fs) = ok false
  value_in _ _ = err type_error

  default_list : Items N
  default_list =
      (item (text "ok")
        (item (text "healthy") (item (text "ready") (item (boolean true) no_items))))

  -- `healthy_values`
  unfoldable pub healthy_values : Fields N → Json N
  unfolding default_list
  healthy_values rs = elim (member "healthy_values" rs) [ none ↦ list default_list | some v ↦ v ]

  -- The test of the configured status.
  unfoldable pub check_status : Fields N → Json N → Result (Unit {0})
  check_status rs payload = elim (path_in "status_path" rs) [
    | none ↦ ok tt
    | some path ↦ do
      status ← extract_path path payload
      healthy ← value_in status (healthy_values rs)
      if healthy then ok tt else err protocol_error
  ]

  details_of : Json N → Fields N
  details_of (dict fs) = fs
  details_of v = field "response" v no_fields

  -- `health`, once the operation is found: the details of a status READY.
  unfoldable pub ask_health : (String → String → Exchange N) → Fields N → Result (Option (Fields N))
  unfolding details_of
  ask_health send spec = do
    method ← method_of spec
    endpoint ← endpoint_of spec
    payload ← request_json (send method endpoint)
    rs ← response_spec spec
    checked ← check_status rs payload
    ok (some (details_of payload))

  -- `health`; `ok none` is that health cannot be verified.
  unfoldable pub health : (String → String → Exchange N) → Fields N → Result (Option (Fields N))
  health send protocol = do
    spec ← operation_spec protocol "health"
    elim spec [ none ↦ ok none | some fs ↦ ask_health send fs ]

  -- The values that count as healthy where none are configured: three texts, and what Python takes for
  -- True.
  abbrev pub IsHealthy : Json N → Type 0
  IsHealthy (text x) = (x ≡ "ok") ⊎ (x ≡ "healthy") ⊎ (x ≡ "ready")
  IsHealthy (boolean b) = b ≡ true
  IsHealthy (number n) = numbers.as_flag n ≡ some true
  IsHealthy _ = ⊥

  default-IsHealthy : (v : Json N) → any_same v default_list ≡ true → IsHealthy v
  unfolding any_same same_json default_list
  default-IsHealthy null h = absurd (ground arith)
  default-IsHealthy (boolean b) h = ground arith
  default-IsHealthy (number n) h = ground arith
  default-IsHealthy (text x) h = ground (arith, eq_iff x "ok", eq_iff x "healthy", eq_iff x "ready")
  default-IsHealthy (list xs) h = absurd (ground arith)
  default-IsHealthy (dict fs) h = absurd (ground arith)

  -- A target with a status path and no configured values is found healthy only where the status at that
  -- path of its answer is one of the default values.
  pub health-IsHealthy :
      (send : String → String → Exchange N) (protocol spec rs details : Fields N) (path : String)
      → member "health" protocol ≡ some (dict spec)
      → response_spec spec ≡ ok rs
      → path_in "status_path" rs ≡ some path
      → member "healthy_values" rs ≡ none
      → health send protocol ≡ ok (some details)
      → (method : String) × (endpoint : String) × (payload : Json N) × (status : Json N)
        × (request_json (send method endpoint) ≡ ok payload)
        × (extract_path path payload ≡ ok status)
        × IsHealthy status
  unfolding health ask_health check_status value_in healthy_values operation_spec
  health-IsHealthy send protocol spec rs details path declared mapping set unset h =
      let asked : ask_health send spec ≡ ok (some details) = ground (arith, declared) in
      let (method, called, h1) = bind_parts (method_of spec) _ (some details) asked in
      let (endpoint, addressed, h2) = bind_parts (endpoint_of spec) _ (some details) h1 in
      let (payload, answered, h3) =
        bind_parts (request_json (send method endpoint)) _ (some details) h2 in
      let (rs', mapping', h4) = bind_parts (response_spec spec) _ (some details) h3 in
      let same : rs' ≡ rs = ground arith in
      let (u, checked, h5) = bind_parts (check_status rs' payload) _ (some details) h4 in
      let checked' : check_status rs payload ≡ ok u =
        subst (λ x. check_status x payload ≡ ok u) same checked in
      let chain : (extract_path path payload >>= λ status.
      value_in status (healthy_values rs) >>= λ healthy.
      if healthy then ok tt else err protocol_error)
          ≡ ok u =
        ground (arith, checked', set) in
      let (status, found, judged) = bind_parts (extract_path path payload) _ u chain in
      (
        method,
        endpoint,
        payload,
        status,
        answered,
        found,
        default-IsHealthy status (ground (arith, judged, unset)),
      )
