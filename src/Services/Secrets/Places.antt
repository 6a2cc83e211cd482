-- ===== src/Services/Secrets/Places.antt =====
-- What the places of a configuration become when src/rag_eval/services/secret_service.py sanitizes it.
use rag_eval.Prelude.{
  ℕ, suc, ◌++◌, ◌≡◌, refl, true, false, Option, none, some, String, List, [], ◌∷◌, ◌⊎◌, inl, inr,
  arith, str_eq, ◌∙◌, Option-cases,
}
use rag_eval.Prelude.Decimal.{index_text}
use rag_eval.Json.{
  Json, null, boolean, number, text, list, dict, Items, no_items, item, Fields, no_fields, field,
  member,
}
use rag_eval.Services.Secrets.Names.{format_path}
use rag_eval.Services.Secrets.Store.{ok, SecretStore, persist_secret}
use rag_eval.Services.Secrets.Sanitize.{
  SecretRef, Cryptography, dump_ref, is_secret, looks_like_secret_ref, looks_like_explicit_secret,
  choose_id, read_ref, owned_secret, keep_ref, store_given, store_explicit, store_plaintext,
}
use rag_eval.Services.Secrets.Stored.{Result-cases}

module _ {N : Type 0} where
  -- A reference as the sanitized configuration writes it.
  abbrev pub reference : String → Option String → Json N
  reference id none = dict (field "secret_id" (text id) no_fields)
  reference id (some name) = dict (field "secret_id" (text id) (field "name" (text name) no_fields))

  abbrev pub text_of : Option (Json N) → Option String
  text_of (some (text x)) = some x
  text_of _ = none

  -- A dict with an id that is not empty.
  abbrev pub IsReference : Fields N → String → Type 0
  IsReference fs id = (member "secret_id" fs ≡ some (text id)) × (str_eq id "" ≡ false)

  -- A dict that marks its value as a secret.
  abbrev pub MarksSecret : Fields N → Json N → Type 0
  MarksSecret fs v = (member "secret" fs ≡ some (boolean true)) × (member "value" fs ≡ some v)

  -- A reference to a secret that has the path's name.
  abbrev pub RefersTo : List String → Json N → Type 0
  RefersTo path w =
      (id name : String) × (format_path path ≡ some name) × (w ≡ reference id (some name))

  -- What a marked value becomes.
  abbrev pub IsStored : List String → Json N → Json N → Type 0
  IsStored path null w = w ≡ null
  IsStored path (text x) w = RefersTo path w
  IsStored path _ w = ⊥

  -- What a value at a path, below a field's name, has become: a reference where it is a text under a
  -- secret name, or a dict that is a reference or marks a secret; itself in every other place.
  unfoldable mutual
    pub IsPreserved : List String → Option String → Json N → Json N → Type 0
    IsPreserved path name null w = w ≡ null
    IsPreserved path name (boolean b) w = (is_secret name ≡ false) × (w ≡ boolean b)
    IsPreserved path name (number n) w = (is_secret name ≡ false) × (w ≡ number n)
    IsPreserved path name (text x) w =
        ((is_secret name ≡ false) × (w ≡ text x)) ⊎ ((is_secret name ≡ true) × RefersTo path w)
    IsPreserved path name (list xs) (list ys) = ArePreserved path 0 xs ys
    IsPreserved path name (list xs) _ = ⊥
    IsPreserved path name (dict fs) w =
        ((id : String) × IsReference fs id × (w ≡ reference id (text_of (member "name" fs))))
        ⊎ (((id : String) → IsReference fs id → ⊥)
            × (((v : Json N) × MarksSecret fs v × IsStored path v w)
                ⊎ (((v : Json N) → MarksSecret fs v → ⊥)
                    × ((gs : Fields N) × (w ≡ dict gs) × FieldsPreserved path fs gs))))

    pub ArePreserved : List String → ℕ → Items N → Items N → Type 0
    ArePreserved path index no_items no_items = Unit
    ArePreserved path index (item v xs) (item w ys) =
        IsPreserved (path ++ index_text index ∷ []) none v w × ArePreserved path (suc index) xs ys
    ArePreserved path index _ _ = ⊥

    pub FieldsPreserved : List String → Fields N → Fields N → Type 0
    FieldsPreserved path no_fields no_fields = Unit
    FieldsPreserved path (field k v fs) (field j w gs) =
        (j ≡ k) × IsPreserved (path ++ k ∷ []) (some k) v w × FieldsPreserved path fs gs
    FieldsPreserved path _ _ = ⊥

  dump_ref-reference : (r : SecretRef) → dict (dump_ref r) ≡ reference r.secret_id r.name
  unfolding dump_ref
  dump_ref-reference r = by_name r.name
    where
      by_name :
          (name : Option String)
          → dict (dump_ref (record { secret_id = r.secret_id; name = name }))
            ≡ reference r.secret_id name
      by_name none = refl
      by_name (some x) = refl

  pub looks_like_secret_ref-true :
      (fs : Fields N) → looks_like_secret_ref fs ≡ true → (id : String) × IsReference fs id
  unfolding looks_like_secret_ref
  looks_like_secret_ref-true fs h = elim (Option-cases (member "secret_id" fs)) [
    | inl missing ↦ absurd (ground arith)
    | inr (text id, given) ↦ (id, (given, ground arith))
    | inr (v, given) ↦ absurd (ground arith)
  ]

  pub looks_like_secret_ref-false :
      (fs : Fields N) (id : String) → looks_like_secret_ref fs ≡ false → IsReference fs id → ⊥
  unfolding looks_like_secret_ref
  looks_like_secret_ref-false fs id h (given, full) = ground arith

  pub looks_like_explicit_secret-true :
      (fs : Fields N) → looks_like_explicit_secret fs ≡ true → (v : Json N) × MarksSecret fs v
  unfolding looks_like_explicit_secret
  looks_like_explicit_secret-true fs h = elim (Option-cases (member "value" fs)) [
    | inl missing ↦ absurd (ground arith)
    | inr (v, given) ↦ elim (Option-cases (member "secret" fs)) [
      | inl unmarked ↦ absurd (ground arith)
      | inr (boolean true, marked) ↦ (v, (marked, given))
      | inr (m, marked) ↦ absurd (ground arith)
    ]
  ]

  pub looks_like_explicit_secret-false :
      (fs : Fields N) (v : Json N) → looks_like_explicit_secret fs ≡ false → MarksSecret fs v → ⊥
  unfolding looks_like_explicit_secret
  looks_like_explicit_secret-false fs v h (marked, given) = ground arith

  read_ref-text_of :
      (fs : Fields N) (id : String) (r : SecretRef)
      → member "secret_id" fs ≡ some (text id)
      → read_ref fs ≡ some r
      → reference r.secret_id r.name ≡ reference id (text_of (member "name" fs))
  unfolding read_ref
  read_ref-text_of fs id r given h = elim (Option-cases (member "name" fs)) [
    | inl unnamed ↦ ground arith
    | inr (null, named) ↦ ground arith
    | inr (text x, named) ↦ ground arith
    | inr (v, named) ↦ absurd (ground arith)
  ]

module _ {C N : Type 0} (c : Cryptography C) (t : String) where
  pub store_plaintext-RefersTo :
      (path : List String) (x : String) (w : Json N) (s s' : SecretStore C)
      → store_plaintext c t path (text x) s ≡ ok (w, s')
      → RefersTo path w
  unfolding store_plaintext dump_ref
  store_plaintext-RefersTo path x w s s' e = elim (Option-cases (format_path path)) [
    | inl no_path ↦ absurd (ground arith)
    | inr (name, named) ↦ elim (Result-cases (choose_id c t name s)) [
      | inr (e', refused) ↦ absurd (ground arith)
      | inl ((id, s1), chosen) ↦ elim (Result-cases (persist_secret id t name (c.encrypt x) s1)) [
        | inr (e', refused) ↦ absurd (ground arith)
        | inl ((u, s2), persisted) ↦ (id, name, named, ground arith)
      ]
    ]
  ]

  pub keep_ref-reference :
      (fs : Fields N) (id : String) (w : Json N) (s s' : SecretStore C)
      → member "secret_id" fs ≡ some (text id)
      → keep_ref t fs s ≡ ok (w, s')
      → w ≡ reference id (text_of (member "name" fs))
  unfolding keep_ref
  keep_ref-reference fs id w s s' given e = elim (Option-cases (read_ref fs)) [
    | inl extra ↦ absurd (ground arith)
    | inr (r, read) ↦ elim (Result-cases (owned_secret t r.secret_id s)) [
      | inr (e', refused) ↦ absurd (ground arith)
      | inl ((row, s1), found) ↦
          let written : w ≡ dict (dump_ref r) = ground arith in
          written ∙ dump_ref-reference r ∙ read_ref-text_of fs id r given read
    ]
  ]

  pub store_explicit-IsStored :
      (path : List String) (fs : Fields N) (v w : Json N) (s s' : SecretStore C)
      → member "value" fs ≡ some v
      → store_explicit c t path fs s ≡ ok (w, s')
      → IsStored path v w
  unfolding store_explicit store_given store_plaintext
  store_explicit-IsStored path fs null w s s' given e = ground arith
  store_explicit-IsStored path fs (text x) w s s' given e =
      store_plaintext-RefersTo path x w s s' (ground arith)
  store_explicit-IsStored path fs (boolean b) w s s' given e = ground arith
  store_explicit-IsStored path fs (number n) w s s' given e = ground arith
  store_explicit-IsStored path fs (list xs) w s s' given e = ground arith
  store_explicit-IsStored path fs (dict gs) w s s' given e = ground arith
