-- ===== src/Services/Secrets/Guarantees.antt =====
-- What the secret service of src/rag_eval/services/secret_service.py promises.
use rag_eval.Prelude.{
  ℕ, suc, ◌≡◌, refl, sym, ap, subst, ◌∙◌, true, false, Option, none, some, String, List, [], ◌∷◌,
  ◌++◌, str_eq, eq_iff, inl, inr, arith, Bool-cases, Option-cases,
}
use rag_eval.Json.{
  Json, null, boolean, number, text, list, dict, Items, no_items, item, Fields, no_fields, field,
  member,
}
use rag_eval.Services.Secrets.Names.{format_path}
use rag_eval.Prelude.Decimal.{index_text}
use rag_eval.Services.Secrets.Store.{ok, SecretRecord, SecretStore, find_secret}
use rag_eval.Services.Secrets.Sanitize.{
  SecretRef, Cryptography, looks_like_secret_ref, only_ref_keys, read_ref, dump_ref, owned_secret,
  keep_ref, store_plaintext, sanitize_scalar, sanitize_value, sanitize_items, sanitize_fields,
  extract_and_store, resolve_secret,
}
use rag_eval.Services.Secrets.Owners.{owner, owner_in-find_secret, find_secret-owner_in, IsSound}
use rag_eval.Services.Secrets.Persist.{Keeps}
use rag_eval.Services.Secrets.Stored.{
  DrawsIds, IsOwnRef, Result-cases, store_plaintext-Keeps, store_plaintext-same_id,
}
use rag_eval.Services.Secrets.Clean.{IsClean, AreClean, FieldsClean}
use rag_eval.Services.Secrets.Sanitized.{value-IsClean}

-- A reference that the service has written is read back.
written_ref :
    (N : Type 0) (id : String) (name : Option String)
    → str_eq id "" ≡ false
    → (looks_like_secret_ref {N = N} (dump_ref (record { secret_id = id; name = name })) ≡ true)
      × (read_ref {N = N} (dump_ref (record { secret_id = id; name = name }))
          ≡ some (record { secret_id = id; name = name }))
unfolding looks_like_secret_ref read_ref dump_ref only_ref_keys member
written_ref N id none h = (rw h refl, refl)
written_ref N id (some n) h = (rw h refl, refl)

owned_found :
    {C : Type 0} (t id : String) (s : SecretStore C)
    → owner id s ≡ some t
    → (row : SecretRecord C) × (owned_secret t id s ≡ ok (row, s))
unfolding owned_secret
owned_found t id s owned =
    let (row, found, mine) = find_secret-owner_in id t s.secrets owned in
    let ours : str_eq row.target_id t ≡ true = (eq_iff row.target_id t).1 mine in
    (row, ground (arith, found, ours))

module _ {C N : Type 0} (c : Cryptography C) where
  own_ref_kept :
      (t : String) (fs : Fields N) (s : SecretStore C)
      → IsOwnRef t s fs
      → (looks_like_secret_ref fs ≡ true) × (keep_ref t fs s ≡ ok (dict fs, s))
  unfolding keep_ref
  own_ref_kept t fs s (r, written, nonempty, owned) =
      let (ref, read) = written_ref N r.secret_id r.name nonempty in
      let (row, mine) = owned_found t r.secret_id s owned in
      rw written (ref, ground (arith, read, mine))

  -- A value without plaintext secrets is left as it is, and nothing is stored.
  mutual
    unfolding sanitize_value sanitize_scalar IsClean

    value_kept :
        (t : String) (path : List String) (name : Option String) (v : Json N) (s : SecretStore C)
        → IsClean t s name v
        → sanitize_value c t path name v s ≡ ok (v, s)
    value_kept t path name null s h = refl
    value_kept t path name (boolean b) s h = rw h refl
    value_kept t path name (number n) s h = rw h refl
    value_kept t path name (text x) s h = rw h refl
    value_kept t path name (list xs) s h = ground (arith, items_kept t path 0 xs s h)
    value_kept t path name (dict fs) s (inl own) = ground (arith, own_ref_kept t fs s own)
    value_kept t path name (dict fs) s (inr (plain, ordinary, clean)) =
        ground (arith, fields_kept t path fs s clean)

    items_kept :
        (t : String) (path : List String) (index : ℕ) (xs : Items N) (s : SecretStore C)
        → AreClean t s xs
        → sanitize_items c t path index xs s ≡ ok (xs, s)
    items_kept t path index no_items s h = refl
    items_kept t path index (item v xs) s h = ground (
      arith,
      value_kept t (path ++ index_text index ∷ []) none v s h.0,
      items_kept t path (suc index) xs s h.1,
    )

    fields_kept :
        (t : String) (path : List String) (fs : Fields N) (s : SecretStore C)
        → FieldsClean t s fs
        → sanitize_fields c t path fs s ≡ ok (fs, s)
    fields_kept t path no_fields s h = refl
    fields_kept t path (field k v fs) s h =
        ground (arith, value_kept t (path ++ k ∷ []) (some k) v s h.0, fields_kept t path fs s h.1)

pub only_dict_lem :
    {C N : Type 0} (c : Cryptography C) (t : String) (config gs : Fields N) (s s' : SecretStore C)
    → extract_and_store c t config s ≡ ok (gs, s')
    → sanitize_value c t [] none (dict config) s ≡ ok (dict gs, s')
unfolding extract_and_store
only_dict_lem {N = N} c t config gs s s' e =
    elim (Result-cases (sanitize_value c t [] none (dict config) s)) [
      | inr (e', refused) ↦ absurd (ground arith)
      | inl ((null, s1), done) ↦ absurd (ground arith)
      | inl ((boolean b, s1), done) ↦ absurd (ground arith)
      | inl ((number n, s1), done) ↦ absurd (ground arith)
      | inl ((text x, s1), done) ↦ absurd (ground arith)
      | inl ((list xs, s1), done) ↦ absurd (ground arith)
      | inl ((dict hs, s1), done) ↦ ground arith
    ]

module _ {C N : Type 0} (c : Cryptography C) (draws : DrawsIds c) where
  -- A configuration that the service has accepted holds no plaintext secret: every scalar but null
  -- stands under a name that is not secret, or in a list, no dict marks a secret explicitly, and
  -- every dict that looks like a reference is one to a stored secret of this target. The secrets of
  -- all other targets are as before, and no secret has changed its owner.
  pub extract_and_store-IsClean :
      (t : String) (config gs : Fields N) (s s' : SecretStore C)
      → IsSound s
      → extract_and_store c t config s ≡ ok (gs, s')
      → IsClean t s' none (dict gs) × Keeps t s s'
  extract_and_store-IsClean t config gs s s' h e =
      let (kept, clean) =
        value-IsClean c draws t [] none (dict config) (dict gs) s s' h
          (only_dict_lem c t config gs s s' e) in
      (clean, kept)

  -- Saving an accepted configuration again changes neither the configuration nor any stored secret.
  pub extract_and_store_idem :
      (t : String) (config gs : Fields N) (s s' : SecretStore C)
      → IsSound s
      → extract_and_store c t config s ≡ ok (gs, s')
      → extract_and_store c t gs s' ≡ ok (gs, s')
  unfolding extract_and_store
  extract_and_store_idem t config gs s s' h e =
      let (clean, kept) = extract_and_store-IsClean t config gs s s' h e in
      ground (arith, value_kept c t [] none (dict gs) s' clean)

  -- A plaintext that the service stores is read back by the target that owns it, through the
  -- reference that takes its place, where the cipher decrypts what it has encrypted.
  pub store_plaintext-resolve_secret :
      ((x : String) → c.decrypt (c.encrypt x) ≡ some x)
      → (t x : String) (path : List String) (w : Json N) (s s' : SecretStore C) → IsSound s
      → store_plaintext c t path (text x) s ≡ ok (w, s')
      → (r : SecretRef) × (w ≡ dict (dump_ref r)) × (resolve_secret c t r.secret_id s' ≡ ok x)
  unfolding resolve_secret owned_secret
  store_plaintext-resolve_secret inverse t x path w s s' h e =
      let (
        kept,
        (
          y,
          r,
          name,
          is_text,
          written,
          called,
          named,
          nonempty,
          (row, found, first, its_id, mine, value),
        ),
      ) =
        store_plaintext-Keeps c draws t path (text x) w s s' h e in
      let ours : str_eq row.target_id t ≡ true = (eq_iff row.target_id t).1 mine in
      let read : c.decrypt row.encrypted_value ≡ some y = ap c.decrypt value ∙ inverse y in
      let same : x ≡ y = ground arith in (r, written, ground (arith, found, ours, read, same))

  -- Two places of a configuration whose paths are written alike, as those of the keys "a.b" and "a"
  -- with "b" below, share one secret: storing the second plaintext changes what the reference in the
  -- first place stands for.
  pub same_path_overwrites :
      ((x : String) → c.decrypt (c.encrypt x) ≡ some x)
      → (t x y : String) (path other : List String) (v w : Json N) (s s' s'' : SecretStore C)
      → format_path path ≡ format_path other
      → IsSound s
      → store_plaintext c t path (text x) s ≡ ok (v, s')
      → store_plaintext c t other (text y) s' ≡ ok (w, s'')
      → (r : SecretRef) × (v ≡ dict (dump_ref r)) × (resolve_secret c t r.secret_id s'' ≡ ok y)
  same_path_overwrites inverse t x y path other v w s s' s'' alike h e e' =
      let (
        kept,
        (
          x',
          r,
          name,
          is_text,
          written,
          called,
          named,
          nonempty,
          (row, found, first, its_id, mine, value),
        ),
      ) =
        store_plaintext-Keeps c draws t path (text x) v s s' h e in
      let (r', written', read) =
        store_plaintext-resolve_secret inverse t y other w s' s'' kept.sound e' in
      let same_name : format_path other ≡ some name = sym alike ∙ named in
      let same =
        store_plaintext-same_id c draws t name y other w s' s'' row r' same_name first e'
          written' in
      (r, written, subst (λ id. resolve_secret c t id s'' ≡ ok y) (same ∙ its_id) read)

-- A target reads only secrets that it owns.
pub resolve_secret-owner :
    {C : Type 0} (c : Cryptography C) (t id x : String) (s : SecretStore C)
    → resolve_secret c t id s ≡ ok x
    → owner id s ≡ some t
unfolding resolve_secret owned_secret
resolve_secret-owner c t id x s h = elim (Option-cases (find_secret id s.secrets)) [
  | inl lost ↦ absurd (ground arith)
  | inr (row, found) ↦ elim (Bool-cases (str_eq row.target_id t)) [
    | inr theirs ↦ absurd (ground arith)
    | inl ours ↦
        owner_in-find_secret id s.secrets row found ∙ ap some ((eq_iff row.target_id t).0 ours)
  ]
]
