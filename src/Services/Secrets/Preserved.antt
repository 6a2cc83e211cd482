-- ===== src/Services/Secrets/Preserved.antt =====
-- What `extract_and_store` of src/rag_eval/services/secret_service.py leaves as it is.
use rag_eval.Prelude.{
  ℕ, suc, ◌++◌, ◌≡◌, refl, Option, none, some, String, List, [], ◌∷◌, inl, inr, arith, subst,
  Bool-cases,
}
use rag_eval.Prelude.Decimal.{index_text}
use rag_eval.Json.{
  Json, null, boolean, number, text, list, dict, Items, no_items, item, Fields, no_fields, field,
}
use rag_eval.Services.Secrets.Store.{ok, SecretStore}
use rag_eval.Services.Secrets.Sanitize.{
  Cryptography, is_secret, looks_like_secret_ref, looks_like_explicit_secret, store_plaintext,
  sanitize_scalar, sanitize_value, sanitize_items, sanitize_fields, extract_and_store,
}
use rag_eval.Services.Secrets.Stored.{Result-cases}
use rag_eval.Services.Secrets.Guarantees.{only_dict_lem}
use rag_eval.Services.Secrets.Places.{
  IsReference, MarksSecret, IsPreserved, ArePreserved, FieldsPreserved, looks_like_secret_ref-true,
  looks_like_secret_ref-false, looks_like_explicit_secret-true, looks_like_explicit_secret-false,
  store_plaintext-RefersTo, keep_ref-reference, store_explicit-IsStored,
}

module _ {C N : Type 0} (c : Cryptography C) (t : String) where
  mutual
    unfolding sanitize_value sanitize_scalar store_plaintext IsPreserved

    value-IsPreserved :
        (path : List String) (name : Option String) (v w : Json N) (s s' : SecretStore C)
        → sanitize_value c t path name v s ≡ ok (w, s')
        → IsPreserved path name v w
    value-IsPreserved path name null w s s' e = ground arith
    value-IsPreserved path name (boolean b) w s s' e = elim (Bool-cases (is_secret name)) [
      | inl secret ↦ absurd (ground arith)
      | inr plain ↦ (plain, ground arith)
    ]
    value-IsPreserved path name (number n) w s s' e = elim (Bool-cases (is_secret name)) [
      | inl secret ↦ absurd (ground arith)
      | inr plain ↦ (plain, ground arith)
    ]
    value-IsPreserved path name (text x) w s s' e = elim (Bool-cases (is_secret name)) [
      | inl secret ↦ inr (secret, store_plaintext-RefersTo c t path x w s s' (ground arith))
      | inr plain ↦ inl (plain, ground arith)
    ]
    value-IsPreserved path name (list xs) w s s' e =
        elim (Result-cases (sanitize_items c t path 0 xs s)) [
          | inr (e', refused) ↦ absurd (ground arith)
          | inl ((ys, s1), below) ↦
              let written : list ys ≡ w = ground arith in
              subst (λ x. IsPreserved path name (list xs) x) written
                (items-ArePreserved path 0 xs ys s s1 below)
        ]
    value-IsPreserved path name (dict fs) w s s' e = elim (Bool-cases (looks_like_secret_ref fs)) [
      | inl is_ref ↦
          let (id, found) = looks_like_secret_ref-true fs is_ref in
          inl (id, found, keep_ref-reference c t fs id w s s' found.0 (ground arith))
      | inr no_ref ↦
          let unreferred : (id : String) → IsReference fs id → ⊥ =
            λ id. looks_like_secret_ref-false fs id no_ref in
          elim (Bool-cases (looks_like_explicit_secret fs)) [
            | inl secret ↦
                let (v, marked) = looks_like_explicit_secret-true fs secret in
                let stored = store_explicit-IsStored c t path fs v w s s' marked.1 (ground arith) in
                inr (unreferred, inl (v, marked, stored))
            | inr ordinary ↦ elim (Result-cases (sanitize_fields c t path fs s)) [
              | inr (e', refused) ↦ absurd (ground arith)
              | inl ((gs, s1), below) ↦
                  let unmarked : (v : Json N) → MarksSecret fs v → ⊥ =
                    λ v. looks_like_explicit_secret-false fs v ordinary in
                  inr (
                    unreferred,
                    inr (
                      unmarked,
                      (gs, ground arith, fields-FieldsPreserved path fs gs s s1 below),
                    ),
                  )
            ]
          ]
    ]

    items-ArePreserved :
        (path : List String) (index : ℕ) (xs ys : Items N) (s s' : SecretStore C)
        → sanitize_items c t path index xs s ≡ ok (ys, s')
        → ArePreserved path index xs ys
    items-ArePreserved path index no_items ys s s' e =
        let nothing : no_items ≡ ys = ground arith in
        subst (λ x. ArePreserved path index no_items x) nothing tt
    items-ArePreserved path index (item v xs) ys s s' e =
        elim (Result-cases (sanitize_value c t (path ++ index_text index ∷ []) none v s)) [
          | inr (e', refused) ↦ absurd (ground arith)
          | inl ((w, s1), first) ↦ elim (Result-cases (sanitize_items c t path (suc index) xs s1)) [
            | inr (e', refused) ↦ absurd (ground arith)
            | inl ((zs, s2), rest) ↦
                let written : item w zs ≡ ys = ground arith in
                subst (λ x. ArePreserved path index (item v xs) x) written
                  (
                    value-IsPreserved (path ++ index_text index ∷ []) none v w s s1 first,
                    items-ArePreserved path (suc index) xs zs s1 s2 rest,
                  )
          ]
        ]

    fields-FieldsPreserved :
        (path : List String) (fs gs : Fields N) (s s' : SecretStore C)
        → sanitize_fields c t path fs s ≡ ok (gs, s')
        → FieldsPreserved path fs gs
    fields-FieldsPreserved path no_fields gs s s' e =
        let nothing : no_fields ≡ gs = ground arith in
        subst (λ x. FieldsPreserved path no_fields x) nothing tt
    fields-FieldsPreserved path (field k v fs) gs s s' e =
        elim (Result-cases (sanitize_value c t (path ++ k ∷ []) (some k) v s)) [
          | inr (e', refused) ↦ absurd (ground arith)
          | inl ((w, s1), first) ↦ elim (Result-cases (sanitize_fields c t path fs s1)) [
            | inr (e', refused) ↦ absurd (ground arith)
            | inl ((hs, s2), rest) ↦
                let written : field k w hs ≡ gs = ground arith in
                subst (λ x. FieldsPreserved path (field k v fs) x) written
                  (
                    refl,
                    value-IsPreserved (path ++ k ∷ []) (some k) v w s s1 first,
                    fields-FieldsPreserved path fs hs s1 s2 rest,
                  )
          ]
        ]

  -- Where a configuration is accepted, the sanitized one differs from it only where a secret stood. A
  -- text under a secret name, and the text of a dict that marks a secret, has become a reference that
  -- bears the name of its path; a dict that marks a secret but gives null has become null; a dict with
  -- the id of a secret has kept its id and its name, and nothing else. Every other value is the same,
  -- under the same keys and positions.
  pub extract_and_store-IsPreserved :
      (config gs : Fields N) (s s' : SecretStore C)
      → extract_and_store c t config s ≡ ok (gs, s')
      → IsPreserved [] none (dict config) (dict gs)
  extract_and_store-IsPreserved config gs s s' e =
      value-IsPreserved [] none (dict config) (dict gs) s s' (only_dict_lem c t config gs s s' e)
