-- ===== src/Services/Secrets/Sanitize.antt =====
-- The sanitizing of a configuration and the reading of secrets: src/rag_eval/services/secret_service.py.
--
-- The cipher, which encodes a text before it encrypts it, and the fresh ids are parameters.
use rag_eval.Prelude.{
  ℕ, zero, suc, Bool, true, false, ◌&&◌, Option, none, some, String, List, [], ◌∷◌, ◌++◌, str_eq,
  not, if◌then◌else◌,
}
use rag_eval.Json.{
  Json, null, boolean, number, text, list, dict, Items, no_items, item, Fields, no_fields, field,
  member, has_key,
}
use rag_eval.Services.Secrets.Names.{is_secret_field, format_path}
use rag_eval.Prelude.Decimal.{index_text}
use rag_eval.Services.Secrets.Store.{
  key_error, value_error, runtime_error, type_error, Result, ok, err, SecretRecord, SecretStore, M,
  pure, ◌>>=◌, get_secret, get_secret_by_name, persist_secret,
}

-- `class SecretRef`
pub record SecretRef : Type 0 where
  pub secret_id : String
  pub name : Option String

pub record Cryptography (C : Type 0) : Type 0 where
  pub encrypt : String → C
  pub decrypt : C → Option String
  pub fresh_id : ℕ → String

module _ {N : Type 0} where
  unfoldable pub is_nonempty_text : Option (Json N) → Bool
  is_nonempty_text (some (text x)) = not (str_eq x "")
  is_nonempty_text _ = false

  -- `_looks_like_secret_ref`
  unfoldable pub looks_like_secret_ref : Fields N → Bool
  unfolding is_nonempty_text
  looks_like_secret_ref fs = is_nonempty_text (member "secret_id" fs)

  unfoldable pub is_true : Option (Json N) → Bool
  is_true (some (boolean b)) = b
  is_true _ = false

  -- `_looks_like_explicit_secret`
  unfoldable pub looks_like_explicit_secret : Fields N → Bool
  unfolding is_true
  looks_like_explicit_secret fs = is_true (member "secret" fs) && has_key "value" fs

  -- Whether a model with these two fields, which forbids others, takes the keys.
  unfoldable pub only_ref_keys : Fields N → Bool
  only_ref_keys no_fields = true
  only_ref_keys (field k v fs) =
      if str_eq k "secret_id"
      then only_ref_keys fs
      else (if str_eq k "name" then only_ref_keys fs else false)

  ref_of : Option (Json N) → Option (Json N) → Option SecretRef
  ref_of (some (text id)) none = some (record { secret_id = id; name = none })
  ref_of (some (text id)) (some null) = some (record { secret_id = id; name = none })
  ref_of (some (text id)) (some (text n)) = some (record { secret_id = id; name = some n })
  ref_of _ _ = none

  -- `SecretRef.model_validate`; `none` is its ValidationError, which is a ValueError.
  unfoldable pub read_ref : Fields N → Option SecretRef
  unfolding ref_of
  read_ref fs = if only_ref_keys fs then ref_of (member "secret_id" fs) (member "name" fs) else none

  name_field : Option String → Fields N
  name_field none = no_fields
  name_field (some n) = field "name" (text n) no_fields

  -- `model_dump(mode="json", exclude_none=True)`
  unfoldable pub dump_ref : SecretRef → Fields N
  unfolding name_field
  dump_ref r = field "secret_id" (text r.secret_id) (name_field r.name)

abbrev pub is_secret : Option String → Bool
is_secret none = false
is_secret (some name) = is_secret_field name

module _ {C : Type 0} where
  -- The check that `_validate_reference_ownership`, `resolve_secret` and `replace_secret` begin with.
  unfoldable pub owned_secret : String → String → M C (SecretRecord C)
  owned_secret target id s = elim (get_secret id s) [
    | none ↦ err key_error
    | some r ↦ if str_eq r.target_id target then ok (r, s) else err value_error
  ]

  -- The branch of `_sanitize_value` for a reference.
  unfoldable pub keep_ref : {N : Type 0} → String → Fields N → M C (Json N)
  keep_ref target fs s = elim (read_ref fs) [
    | none ↦ err value_error
    | some r ↦ (owned_secret target r.secret_id >>= λ row. pure (dict (dump_ref r))) s
  ]

module _ {C : Type 0} (c : Cryptography C) where
  -- The id of the secret with that name, or a new one.
  unfoldable pub choose_id : String → String → M C String
  choose_id target name s = elim (get_secret_by_name target name s) [
    | none ↦ ok (c.fresh_id s.drawn, record s { drawn = suc s.drawn })
    | some existing ↦ ok (existing.secret_id, s)
  ]

  module _ {N : Type 0} where
    store_text : String → List String → String → M C (Json N)
    store_text target path x s = elim (format_path path) [
      | none ↦ err value_error
      | some name ↦
          (choose_id target name >>= λ id. persist_secret id target name (c.encrypt x) >>= λ done.
          pure (dict (dump_ref (record { secret_id = id; name = some name }))))
            s
    ]

    -- `_store_plaintext`
    unfoldable pub store_plaintext : String → List String → Json N → M C (Json N)
    unfolding store_text
    store_plaintext target path (text x) s =
        if str_eq x "" then err value_error else store_text target path x s
    store_plaintext target path _ s = err value_error

    unfoldable pub store_given : String → List String → Option (Json N) → M C (Json N)
    store_given target path none s = ok (null, s)
    store_given target path (some null) s = ok (null, s)
    store_given target path (some v) s = store_plaintext target path v s

    -- The branch for an explicit secret.
    unfoldable pub store_explicit : String → List String → Fields N → M C (Json N)
    unfolding store_given
    store_explicit target path fs = store_given target path (member "value" fs)

    -- The branches for a value that is neither a dict nor a list.
    unfoldable pub sanitize_scalar : String → List String → Option String → Json N → M C (Json N)
    sanitize_scalar target path name v s =
        if is_secret name then store_plaintext target path v s else ok (v, s)

    -- `_sanitize_value`
    unfoldable mutual
      pub sanitize_value : String → List String → Option String → Json N → M C (Json N)
      sanitize_value target path name null s = ok (null, s)
      sanitize_value target path name (boolean b) s = sanitize_scalar target path name (boolean b) s
      sanitize_value target path name (number n) s = sanitize_scalar target path name (number n) s
      sanitize_value target path name (text x) s = sanitize_scalar target path name (text x) s
      sanitize_value target path name (list xs) s = elim (sanitize_items target path zero xs s) [
        | err e ↦ err e
        | ok (ys, s') ↦ ok (list ys, s')
      ]
      sanitize_value target path name (dict fs) s =
          let below = sanitize_fields target path fs s in
          if looks_like_secret_ref fs
          then keep_ref target fs s
          else (if looks_like_explicit_secret fs
              then store_explicit target path fs s
              else (elim below [ err e ↦ err e | ok (gs, s') ↦ ok (dict gs, s') ]))

      pub sanitize_items : String → List String → ℕ → Items N → M C (Items N)
      sanitize_items target path index no_items s = ok (no_items, s)
      sanitize_items target path index (item v xs) s =
          elim (sanitize_value target (path ++ index_text index ∷ []) none v s) [
            | err e ↦ err e
            | ok (w, s') ↦ elim (sanitize_items target path (suc index) xs s') [
              | err e ↦ err e
              | ok (ys, s'') ↦ ok (item w ys, s'')
            ]
          ]

      pub sanitize_fields : String → List String → Fields N → M C (Fields N)
      sanitize_fields target path no_fields s = ok (no_fields, s)
      sanitize_fields target path (field k v fs) s =
          elim (sanitize_value target (path ++ k ∷ []) (some k) v s) [
            | err e ↦ err e
            | ok (w, s') ↦ elim (sanitize_fields target path fs s') [
              | err e ↦ err e
              | ok (gs, s'') ↦ ok (field k w gs, s'')
            ]
          ]

    only_dict : Result (Json N × SecretStore C) → Result (Fields N × SecretStore C)
    only_dict (err e) = err e
    only_dict (ok (dict gs, s)) = ok (gs, s)
    only_dict (ok (_, s)) = err type_error

    -- `extract_and_store`
    unfoldable pub extract_and_store : String → Fields N → M C (Fields N)
    unfolding only_dict
    extract_and_store target config s = only_dict (sanitize_value target [] none (dict config) s)

  -- `resolve_secret`
  unfoldable pub resolve_secret : String → String → SecretStore C → Result String
  resolve_secret target id s = elim (owned_secret target id s) [
    | err e ↦ err e
    | ok (r, s') ↦ elim (c.decrypt r.encrypted_value) [ none ↦ err runtime_error | some x ↦ ok x ]
  ]

  -- `replace_secret`
  unfoldable pub replace_secret : String → String → String → M C SecretRef
  replace_secret target id x s = elim (owned_secret target id s) [
    | err e ↦ err e
    | ok (r, s') ↦
        if str_eq x ""
        then err value_error
        else ((persist_secret r.secret_id target r.name (c.encrypt x) >>= λ done.
              pure (record { secret_id = r.secret_id; name = some r.name }))
            s')
  ]
