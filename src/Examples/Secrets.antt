-- ===== src/Examples/Secrets.antt =====
-- Secrets of a configuration (src/rag_eval/services/secret_service.py).
use rag_eval.Prelude.{ℕ, zero, suc, ◌≡◌, refl, none, some, String, [], ◌∷◌}
use rag_eval.Json.{Json, text, list, dict, no_items, item, Fields, no_fields, field, member}
use rag_eval.Services.Secrets.Names.{is_secret_field, uses_bearer_auth, format_path}
use rag_eval.Prelude.Decimal.{index_text}
use rag_eval.Services.Secrets.Store.{
  ok, SecretStore, find_secret, find_named, set_value, persist_secret,
}
use rag_eval.Services.Secrets.Sanitize.{
  SecretRef, Cryptography, looks_like_secret_ref, looks_like_explicit_secret, dump_ref, choose_id,
  store_plaintext, sanitize_scalar, sanitize_value, owned_secret, extract_and_store, resolve_secret,
}
use rag_eval.Services.Secrets.Owners.{owner_in, IsSound}
use rag_eval.Services.Secrets.Persist.{Keeps}
use rag_eval.Services.Secrets.Stored.{DrawsIds}
use rag_eval.Services.Secrets.Clean.{IsClean}
use rag_eval.Services.Secrets.Credentials.{
  plain, secret, EffectiveConfig, ResolvedTargetCredentials, bearer_ref, headers_of,
  resolve_optional, resolve_headers, resolve_auth, resolve_credentials, ResolvedAuth,
  ResolvedHeaders, resolve_credentials-Resolved,
}
use rag_eval.Services.Secrets.Places.{IsPreserved}
use rag_eval.Services.Secrets.Preserved.{extract_and_store-IsPreserved}
use rag_eval.Services.Secrets.Guarantees.{
  extract_and_store-IsClean, extract_and_store_idem, store_plaintext-resolve_secret,
  same_path_overwrites,
}

abbrev toy_id : ℕ → String
toy_id zero = "sec-0"
toy_id (suc n) = "sec-1"

-- A cipher that hides nothing.
abbrev toy : Cryptography String
toy = record { encrypt = λ x. x; decrypt = λ x. some x; fresh_id = toy_id }

toy-DrawsIds : DrawsIds toy
toy-DrawsIds zero = refl
toy-DrawsIds (suc n) = refl

abbrev empty_store : SecretStore String
empty_store = record { targets = "t1" ∷ []; secrets = []; drawn = 0 }

empty_store-IsSound : IsSound empty_store
unfolding find_named owner_in
empty_store-IsSound = record { named = λ t n r h. cc; no_empty_id = refl }

abbrev config : Fields ℕ
config =
    field "auth" (dict (field "bearer_token" (text "abc") no_fields))
      (field "api_key" (list (item (text "kept") no_items)) no_fields)

abbrev saved : Fields ℕ
saved =
    field "auth"
      (dict (
        field "bearer_token"
          (dict
            (field "secret_id" (text "sec-0") (field "name" (text "auth.bearer_token") no_fields)))
          no_fields))
      (field "api_key" (list (item (text "kept") no_items)) no_fields)

abbrev saved_store : SecretStore String
saved_store = record {
  targets = "t1" ∷ [];
  secrets =
      record {
        secret_id = "sec-0";
        target_id = "t1";
        name = "auth.bearer_token";
        encrypted_value = "abc";
      }
      ∷ [];
  drawn = 1;
}

config_saved : extract_and_store toy "t1" config empty_store ≡ ok (saved, saved_store)
unfolding extract_and_store sanitize_value sanitize_scalar looks_like_secret_ref
    looks_like_explicit_secret is_secret_field store_plaintext choose_id persist_secret find_secret
    find_named format_path index_text dump_ref member
config_saved = refl

extract_and_store-IsClean_example :
    IsClean "t1" saved_store none (dict saved) × Keeps "t1" empty_store saved_store
extract_and_store-IsClean_example =
    extract_and_store-IsClean toy toy-DrawsIds "t1" config saved empty_store saved_store
      empty_store-IsSound config_saved

extract_and_store_idem_example :
    extract_and_store toy "t1" saved saved_store ≡ ok (saved, saved_store)
extract_and_store_idem_example =
    extract_and_store_idem toy toy-DrawsIds "t1" config saved empty_store saved_store
      empty_store-IsSound config_saved

extract_and_store-IsPreserved_example : IsPreserved [] none (dict config) (dict saved)
extract_and_store-IsPreserved_example =
    extract_and_store-IsPreserved toy "t1" config saved empty_store saved_store config_saved

abbrev one_secret : String → SecretStore String
one_secret x = record {
  targets = "t1" ∷ [];
  secrets =
      record { secret_id = "sec-0"; target_id = "t1"; name = "a.b"; encrypted_value = x } ∷ [];
  drawn = 1;
}

abbrev reference : Json ℕ
reference = dict (dump_ref (record { secret_id = "sec-0"; name = some "a.b" }))

first_stored :
    store_plaintext toy "t1" ("a.b" ∷ []) (text "x") empty_store ≡ ok (reference, one_secret "x")
unfolding store_plaintext choose_id persist_secret find_secret find_named format_path
first_stored = refl

second_stored :
    store_plaintext toy "t1" ("a" ∷ "b" ∷ []) (text "y") (one_secret "x")
    ≡ ok (reference, one_secret "y")
unfolding store_plaintext choose_id persist_secret find_secret find_named format_path set_value
second_stored = refl

store_plaintext-resolve_secret_example :
    (r : SecretRef) × (reference ≡ dict (dump_ref r))
    × (resolve_secret toy "t1" r.secret_id (one_secret "x") ≡ ok "x")
store_plaintext-resolve_secret_example =
    store_plaintext-resolve_secret toy toy-DrawsIds (λ x. refl) "t1" "x" ("a.b" ∷ []) reference
      empty_store (one_secret "x") empty_store-IsSound first_stored

same_name : format_path ("a.b" ∷ []) ≡ format_path ("a" ∷ "b" ∷ [])
unfolding format_path
same_name = refl

same_path_overwrites_example :
    (r : SecretRef) × (reference ≡ dict (dump_ref r))
    × (resolve_secret toy "t1" r.secret_id (one_secret "y") ≡ ok "y")
same_path_overwrites_example =
    same_path_overwrites toy toy-DrawsIds (λ x. refl) "t1" "x" "y" ("a.b" ∷ []) ("a" ∷ "b" ∷ [])
      reference reference empty_store (one_secret "x") (one_secret "y") same_name
      empty_store-IsSound first_stored second_stored

abbrev own_ref : SecretRef
own_ref = record { secret_id = "sec-0"; name = none }

abbrev effective : EffectiveConfig
effective = record {
  auth = some (record {
    type = some " Bearer ";
    bearer_token = none;
    api_key = none;
    auth_token = some own_ref;
    api_key_header = none;
  });
  connection = some (("X-Plain", plain "1") ∷ ("X-Secret", secret own_ref) ∷ []);
}

abbrev credentials : ResolvedTargetCredentials
credentials = record {
  bearer_token = some "x";
  api_key = none;
  api_key_header = "X-API-Key";
  headers = ("X-Secret", "x") ∷ [];
}

credentials_resolved : resolve_credentials toy "t1" (one_secret "x") effective ≡ ok credentials
unfolding resolve_credentials resolve_auth resolve_optional resolve_headers bearer_ref
    uses_bearer_auth resolve_secret owned_secret find_secret
credentials_resolved = refl

resolve_credentials-Resolved_example :
    ResolvedAuth toy "t1" (one_secret "x") effective.auth credentials
    × ResolvedHeaders toy "t1" (one_secret "x") (headers_of effective) credentials.headers
resolve_credentials-Resolved_example =
    resolve_credentials-Resolved toy "t1" (one_secret "x") effective credentials
      credentials_resolved
