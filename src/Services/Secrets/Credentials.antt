-- ===== src/Services/Secrets/Credentials.antt =====
-- `resolve_credentials` of src/rag_eval/services/secret_service.py.
use rag_eval.Prelude.{
  ◌≡◌, sym, ◌∙◌, subst, Option, none, some, String, List, [], ◌∷◌, inl, inr, arith, Bool-cases,
  Option-cases, if◌then◌else◌,
}
use rag_eval.Services.Secrets.Names.{uses_bearer_auth, IsBearer, uses_bearer_auth_iff}
use rag_eval.Services.Secrets.Store.{Result, ok, err, SecretStore}
use rag_eval.Services.Secrets.Sanitize.{SecretRef, Cryptography, resolve_secret}
use rag_eval.Services.Secrets.Owners.{owner}
use rag_eval.Services.Secrets.Stored.{Result-cases}
use rag_eval.Services.Secrets.Guarantees.{resolve_secret-owner}

-- `class TargetAuthConfig`, of the entries that are read here; `api_key_header` is that parameter,
-- where it is a text.
pub record TargetAuthConfig : Type 0 where
  pub type : Option String
  pub bearer_token : Option SecretRef
  pub api_key : Option SecretRef
  pub auth_token : Option SecretRef
  pub api_key_header : Option String

pub data HeaderValue : Type 0 where
  plain : String → HeaderValue
  secret : SecretRef → HeaderValue

-- `class EffectiveTargetConfig`: the authentication, and the headers of the connection.
pub record EffectiveConfig : Type 0 where
  pub auth : Option TargetAuthConfig
  pub connection : Option (List (String × HeaderValue))

-- `class ResolvedTargetCredentials`
pub record ResolvedTargetCredentials : Type 0 where
  pub bearer_token : Option String
  pub api_key : Option String
  pub api_key_header : String
  pub headers : List (String × String)

-- `bearer_ref`
unfoldable pub bearer_ref : TargetAuthConfig → Option SecretRef
bearer_ref auth = elim auth.bearer_token [
  | some r ↦ some r
  | none ↦ if uses_bearer_auth auth.type then auth.auth_token else none
]

abbrev header_name : Option String → String
header_name none = "X-API-Key"
header_name (some name) = name

abbrev pub headers_of : EffectiveConfig → List (String × HeaderValue)
headers_of config = elim config.connection [ none ↦ [] | some headers ↦ headers ]

module _ {C : Type 0} (c : Cryptography C) (target : String) (s : SecretStore C) where
  unfoldable pub resolve_optional : Option SecretRef → Result (Option String)
  resolve_optional none = ok none
  resolve_optional (some r) = elim (resolve_secret c target r.secret_id s) [
    | err e ↦ err e
    | ok x ↦ ok (some x)
  ]

  -- `headers`
  unfoldable pub resolve_headers : List (String × HeaderValue) → Result (List (String × String))
  resolve_headers [] = ok []
  resolve_headers ((name, plain v) ∷ headers) = resolve_headers headers
  resolve_headers ((name, secret r) ∷ headers) = elim (resolve_secret c target r.secret_id s) [
    | err e ↦ err e
    | ok x ↦ elim (resolve_headers headers) [ err e ↦ err e | ok rest ↦ ok ((name, x) ∷ rest) ]
  ]

  -- The credentials but for the headers.
  unfoldable pub resolve_auth :
      Option TargetAuthConfig → Result (Option String × Option String × String)
  resolve_auth none = ok (none, none, header_name none)
  resolve_auth (some auth) = elim (resolve_optional (bearer_ref auth)) [
    | err e ↦ err e
    | ok token ↦ elim (resolve_optional auth.api_key) [
      | err e ↦ err e
      | ok key ↦ ok (token, key, header_name auth.api_key_header)
    ]
  ]

  -- `resolve_credentials`
  unfoldable pub resolve_credentials : EffectiveConfig → Result ResolvedTargetCredentials
  resolve_credentials config = elim (resolve_auth config.auth) [
    | err e ↦ err e
    | ok (token, key, header) ↦ elim (resolve_headers (headers_of config)) [
      | err e ↦ err e
      | ok headers ↦ ok (record {
        bearer_token = token;
        api_key = key;
        api_key_header = header;
        headers = headers;
      })
    ]
  ]

  -- What a reference of the configuration has become: the plaintext of a secret of the target.
  abbrev pub OwnPlaintext : SecretRef → String → Type 0
  OwnPlaintext r x =
      (owner r.secret_id s ≡ some target) × (resolve_secret c target r.secret_id s ≡ ok x)

  abbrev pub Resolved : Option SecretRef → Option String → Type 0
  Resolved none v = v ≡ none
  Resolved (some r) v = (x : String) × (v ≡ some x) × OwnPlaintext r x

  -- The bearer token of an authentication: that of its own, where it has one; the auth token, where it
  -- has none and is of the bearer kind; and none otherwise.
  abbrev pub ResolvedBearer : TargetAuthConfig → Option String → Type 0
  ResolvedBearer auth v =
      ((r : SecretRef) → auth.bearer_token ≡ some r → Resolved (some r) v)
      × (auth.bearer_token ≡ none → IsBearer auth.type → Resolved auth.auth_token v)
      × (auth.bearer_token ≡ none → (IsBearer auth.type → ⊥) → v ≡ none)

  abbrev pub ResolvedAuth : Option TargetAuthConfig → ResolvedTargetCredentials → Type 0
  ResolvedAuth none creds = (creds.bearer_token ≡ none) × (creds.api_key ≡ none)
  ResolvedAuth (some auth) creds =
      ResolvedBearer auth creds.bearer_token × Resolved auth.api_key creds.api_key

  abbrev pub ResolvedHeaders : List (String × HeaderValue) → List (String × String) → Type 0
  ResolvedHeaders [] out = out ≡ []
  ResolvedHeaders ((name, plain v) ∷ headers) out = ResolvedHeaders headers out
  ResolvedHeaders ((name, secret r) ∷ headers) out =
      (x : String) × (rest : List (String × String)) × (out ≡ (name, x) ∷ rest)
      × OwnPlaintext r x
      × ResolvedHeaders headers rest

  resolve_optional-Resolved :
      (ref : Option SecretRef) (v : Option String) → resolve_optional ref ≡ ok v → Resolved ref v
  unfolding resolve_optional
  resolve_optional-Resolved none v h = ground arith
  resolve_optional-Resolved (some r) v h =
      elim (Result-cases (resolve_secret c target r.secret_id s)) [
        | inr (e, refused) ↦ absurd (ground arith)
        | inl (x, read) ↦
            (x, ground arith, (resolve_secret-owner c target r.secret_id x s read, read))
      ]

  resolve_headers-ResolvedHeaders :
      (headers : List (String × HeaderValue)) (out : List (String × String))
      → resolve_headers headers ≡ ok out
      → ResolvedHeaders headers out
  unfolding resolve_headers
  resolve_headers-ResolvedHeaders [] out h = ground arith
  resolve_headers-ResolvedHeaders ((name, plain v) ∷ headers) out h =
      resolve_headers-ResolvedHeaders headers out h
  resolve_headers-ResolvedHeaders ((name, secret r) ∷ headers) out h =
      elim (Result-cases (resolve_secret c target r.secret_id s)) [
        | inr (e, refused) ↦ absurd (ground arith)
        | inl (x, read) ↦ elim (Result-cases (resolve_headers headers)) [
          | inr (e, refused) ↦ absurd (ground arith)
          | inl (rest, later) ↦ (
            x,
            rest,
            ground arith,
            (resolve_secret-owner c target r.secret_id x s read, read),
            resolve_headers-ResolvedHeaders headers rest later,
          )
        ]
      ]

  bearer_ref-ResolvedBearer :
      (auth : TargetAuthConfig) (v : Option String)
      → Resolved (bearer_ref auth) v
      → ResolvedBearer auth v
  unfolding bearer_ref
  bearer_ref-ResolvedBearer auth v h = elim (Option-cases auth.bearer_token) [
    | inr (r, own) ↦
        let resolved : Resolved (some r) v =
          let chosen : bearer_ref auth ≡ some r = ground (arith, own) in
          subst (λ x. Resolved x v) chosen h in
        (
          λ q given. subst (λ x. Resolved x v) (sym own ∙ given) resolved,
          λ missing kind. absurd (ground arith),
          λ missing other. absurd (ground arith),
        )
    | inl missing ↦ elim (Bool-cases (uses_bearer_auth auth.type)) [
      | inl bearer ↦ (
        λ q given. absurd (ground arith),
        λ m kind.
            let chosen : bearer_ref auth ≡ auth.auth_token = ground (arith, missing, bearer) in
            subst (λ x. Resolved x v) chosen h,
        λ m other. absurd (other ((uses_bearer_auth_iff auth.type).0 bearer)),
      )
      | inr plain_kind ↦ (
        λ q given. absurd (ground arith),
        λ m kind. absurd (ground (arith, (uses_bearer_auth_iff auth.type).1 kind)),
        λ m other.
            let chosen : bearer_ref auth ≡ none = ground (arith, missing, plain_kind) in
            subst (λ x. Resolved x v) chosen h,
      )
    ]
  ]

  resolve_auth-Resolved :
      (auth : TargetAuthConfig) (token key : Option String) (header : String)
      → resolve_auth (some auth) ≡ ok (token, key, header)
      → ResolvedBearer auth token × Resolved auth.api_key key
  unfolding resolve_auth
  resolve_auth-Resolved auth token key header h =
      elim (Result-cases (resolve_optional (bearer_ref auth))) [
        | inr (e, refused) ↦ absurd (ground arith)
        | inl (token', first) ↦ elim (Result-cases (resolve_optional auth.api_key)) [
          | inr (e, refused) ↦ absurd (ground arith)
          | inl (key', second) ↦ (
            bearer_ref-ResolvedBearer auth token
                (resolve_optional-Resolved (bearer_ref auth) token (ground arith)),
            resolve_optional-Resolved auth.api_key key (ground arith),
          )
        ]
      ]

  resolve_auth-ResolvedAuth :
      (auth : Option TargetAuthConfig) (token key : Option String) (header : String)
      (headers : List (String × String))
      → resolve_auth auth ≡ ok (token, key, header)
      → ResolvedAuth auth (record {
        bearer_token = token;
        api_key = key;
        api_key_header = header;
        headers = headers;
      })
  unfolding resolve_auth
  resolve_auth-ResolvedAuth none token key header headers h = (ground arith, ground arith)
  resolve_auth-ResolvedAuth (some auth) token key header headers h =
      resolve_auth-Resolved auth token key header h

  -- The credentials that an adapter gets are the plaintexts of exactly the secrets that the
  -- configuration refers to: as its bearer token, or as its auth token where it has no bearer token and
  -- the type of its authentication, stripped and in lower case, is one of `bearer`, `bearer_token`,
  -- `token` and `auth_token`; as its API key; and as its secret headers. Every one of these secrets
  -- belongs to the target: a reference to the secret of another target gives no credentials at all.
  pub resolve_credentials-Resolved :
      (config : EffectiveConfig) (creds : ResolvedTargetCredentials)
      → resolve_credentials config ≡ ok creds
      → ResolvedAuth config.auth creds × ResolvedHeaders (headers_of config) creds.headers
  unfolding resolve_credentials
  resolve_credentials-Resolved config creds h = elim (Result-cases (resolve_auth config.auth)) [
    | inr (e, refused) ↦ absurd (ground arith)
    | inl ((token, key, header), first) ↦
        elim (Result-cases (resolve_headers (headers_of config))) [
          | inr (e, refused) ↦ absurd (ground arith)
          | inl (headers, second) ↦
              let made : ResolvedTargetCredentials = record {
                bearer_token = token;
                api_key = key;
                api_key_header = header;
                headers = headers;
              } in
              let same : made ≡ creds = ground arith in
              subst
                (λ x. ResolvedAuth config.auth x × ResolvedHeaders (headers_of config) x.headers)
                same
                (
                  resolve_auth-ResolvedAuth config.auth token key header headers first,
                  resolve_headers-ResolvedHeaders (headers_of config) headers second,
                )
        ]
  ]
