-- ===== src/Services/Secrets/Clean.antt =====
-- Configurations without plaintext secrets, and that the shape by which `_sanitize_value` of
-- src/rag_eval/services/secret_service.py recognizes references and secrets survives it.
use rag_eval.Prelude.{
  ◌≡◌, refl, ap, subst, ◌∙◌, false, Option, none, some, String, List, ◌⊎◌, inl, inr, arith,
  Bool-cases,
}
use rag_eval.Json.{
  Json, null, boolean, number, text, list, dict, Items, no_items, item, Fields, no_fields, field,
  member,
}
use rag_eval.Services.Secrets.Store.{ok, SecretStore}
use rag_eval.Services.Secrets.Sanitize.{
  Cryptography, dump_ref, is_secret, is_nonempty_text, is_true, looks_like_secret_ref,
  looks_like_explicit_secret, sanitize_scalar, store_explicit, store_given, store_plaintext,
  sanitize_value, sanitize_fields,
}
use rag_eval.Services.Secrets.Owners.{owner, owner_in-find_secret, Extends, IsSound}
use rag_eval.Services.Secrets.Persist.{Keeps, Keeps-refl}
use rag_eval.Services.Secrets.Stored.{
  IsOwnRef, DrawsIds, Result-cases, store_plaintext-Keeps, keep_ref-Keeps,
}

module _ {C N : Type 0} where
  -- A value without plaintext secrets, for a target, below a field's name: a scalar stands under no
  -- secret name, and every dict that looks like a reference is one to a stored secret of the target.
  unfoldable mutual
    pub IsClean : String → SecretStore C → Option String → Json N → Type 0
    IsClean t s name null = Unit
    IsClean t s name (boolean b) = is_secret name ≡ false
    IsClean t s name (number n) = is_secret name ≡ false
    IsClean t s name (text x) = is_secret name ≡ false
    IsClean t s name (list xs) = AreClean t s xs
    IsClean t s name (dict fs) =
        IsOwnRef t s fs
        ⊎ ((looks_like_secret_ref fs ≡ false)
            × (looks_like_explicit_secret fs ≡ false)
            × FieldsClean t s fs)

    pub AreClean : String → SecretStore C → Items N → Type 0
    AreClean t s no_items = Unit
    AreClean t s (item v xs) = IsClean t s none v × AreClean t s xs

    pub FieldsClean : String → SecretStore C → Fields N → Type 0
    FieldsClean t s no_fields = Unit
    FieldsClean t s (field k v fs) = IsClean t s (some k) v × FieldsClean t s fs

  mutual
    unfolding IsClean

    pub extend-IsClean :
        (t : String) (s s' : SecretStore C) (name : Option String) (v : Json N)
        → Extends s s'
        → IsClean t s name v
        → IsClean t s' name v
    extend-IsClean t s s' name null x h = tt
    extend-IsClean t s s' name (boolean b) x h = h
    extend-IsClean t s s' name (number n) x h = h
    extend-IsClean t s s' name (text y) x h = h
    extend-IsClean t s s' name (list xs) x h = extend-AreClean t s s' xs x h
    extend-IsClean t s s' name (dict fs) x (inl (r, e, n, o)) = inl (r, e, n, x r.secret_id t o)
    extend-IsClean t s s' name (dict fs) x (inr (a, b, h)) =
        inr (a, b, extend-FieldsClean t s s' fs x h)

    extend-AreClean :
        (t : String) (s s' : SecretStore C) (xs : Items N)
        → Extends s s'
        → AreClean t s xs
        → AreClean t s' xs
    extend-AreClean t s s' no_items x h = tt
    extend-AreClean t s s' (item v xs) x h =
        (extend-IsClean t s s' none v x h.0, extend-AreClean t s s' xs x h.1)

    extend-FieldsClean :
        (t : String) (s s' : SecretStore C) (fs : Fields N)
        → Extends s s'
        → FieldsClean t s fs
        → FieldsClean t s' fs
    extend-FieldsClean t s s' no_fields x h = tt
    extend-FieldsClean t s s' (field k v fs) x h =
        (extend-IsClean t s s' (some k) v x h.0, extend-FieldsClean t s s' fs x h.1)

-- What the tests for references and explicit secrets see of a value.
abbrev pub SameMark : {N : Type 0} → Json N → Json N → Type 0
SameMark v w =
    (is_nonempty_text (some w) ≡ is_nonempty_text (some v)) × (is_true (some w) ≡ is_true (some v))

module _ {C N : Type 0} (c : Cryptography C) (draws : DrawsIds c) where
  -- A stored plaintext becomes a reference of the target.
  pub plaintext-IsOwnRef :
      (t : String) (path : List String) (v w : Json N) (s s' : SecretStore C)
      → IsSound s
      → store_plaintext c t path v s ≡ ok (w, s')
      → Keeps t s s' × ((gs : Fields N) × (w ≡ dict gs) × IsOwnRef t s' gs)
  plaintext-IsOwnRef t path v w s s' h e =
      let (
        kept,
        (
          x,
          r,
          name,
          is_text,
          written,
          called,
          named,
          nonempty,
          (row, found, first, its_id, mine, value),
        ),
      ) =
        store_plaintext-Keeps c draws t path v w s s' h e in
      let owned : owner r.secret_id s' ≡ some t =
        owner_in-find_secret r.secret_id s'.secrets row found ∙ ap some mine in
      (kept, (dump_ref r, written, (r, refl, nonempty, owned)))

  pub explicit-IsOwnRef :
      (t : String) (path : List String) (given : Option (Json N)) (w : Json N)
      (s s' : SecretStore C)
      → IsSound s
      → store_given c t path given s ≡ ok (w, s')
      → Keeps t s s' × ((w ≡ null) ⊎ ((gs : Fields N) × (w ≡ dict gs) × IsOwnRef t s' gs))
  unfolding store_given
  explicit-IsOwnRef t path none w s s' h e =
      (subst (λ z. Keeps t s z) (ground arith) (Keeps-refl t s h), inl (ground arith))
  explicit-IsOwnRef t path (some null) w s s' h e =
      (subst (λ z. Keeps t s z) (ground arith) (Keeps-refl t s h), inl (ground arith))
  explicit-IsOwnRef t path (some (boolean b)) w s s' h e =
      let (kept, ref) = plaintext-IsOwnRef t path (boolean b) w s s' h e in (kept, inr ref)
  explicit-IsOwnRef t path (some (number n)) w s s' h e =
      let (kept, ref) = plaintext-IsOwnRef t path (number n) w s s' h e in (kept, inr ref)
  explicit-IsOwnRef t path (some (text x)) w s s' h e =
      let (kept, ref) = plaintext-IsOwnRef t path (text x) w s s' h e in (kept, inr ref)
  explicit-IsOwnRef t path (some (list xs)) w s s' h e =
      let (kept, ref) = plaintext-IsOwnRef t path (list xs) w s s' h e in (kept, inr ref)
  explicit-IsOwnRef t path (some (dict fs)) w s s' h e =
      let (kept, ref) = plaintext-IsOwnRef t path (dict fs) w s s' h e in (kept, inr ref)

  -- A dict becomes null, a reference of the target, or the dict of its sanitized fields.
  pub sanitize_value-dict :
      (t : String) (path : List String) (name : Option String) (fs : Fields N) (w : Json N)
      (s s' : SecretStore C)
      → IsSound s
      → sanitize_value c t path name (dict fs) s ≡ ok (w, s')
      → (Keeps t s s' × ((w ≡ null) ⊎ ((gs : Fields N) × (w ≡ dict gs) × IsOwnRef t s' gs)))
        ⊎ ((gs : Fields N) × (w ≡ dict gs)
            × (looks_like_secret_ref fs ≡ false)
            × (looks_like_explicit_secret fs ≡ false)
            × (sanitize_fields c t path fs s ≡ ok (gs, s')))
  unfolding sanitize_value store_explicit
  sanitize_value-dict t path name fs w s s' h e = elim (Bool-cases (looks_like_secret_ref fs)) [
    | inl ref ↦
        let (same, own) = keep_ref-Keeps c draws t fs w s s' h (ground arith) in
        inl (subst (λ z. Keeps t s z) same (Keeps-refl t s h), inr own)
    | inr plain ↦ elim (Bool-cases (looks_like_explicit_secret fs)) [
      | inl explicit ↦ inl (explicit-IsOwnRef t path (member "value" fs) w s s' h (ground arith))
      | inr ordinary ↦ elim (Result-cases (sanitize_fields c t path fs s)) [
        | inr (e', refused) ↦ absurd (ground arith)
        | inl ((gs, s1), below) ↦
            let result : s1 ≡ s' = ground arith in
            inr (
              gs,
              ground arith,
              plain,
              ordinary,
              subst (λ z. sanitize_fields c t path fs s ≡ ok (gs, z)) result below,
            )
      ]
    ]
  ]

  -- A value under a name that is not secret keeps its mark.
  pub sanitize_value-SameMark :
      (t : String) (path : List String) (name : Option String) (v w : Json N) (s s' : SecretStore C)
      → IsSound s
      → is_secret name ≡ false
      → sanitize_value c t path name v s ≡ ok (w, s')
      → SameMark v w
  unfolding sanitize_value sanitize_scalar is_nonempty_text is_true
  sanitize_value-SameMark t path name null w s s' sd h e = ground arith
  sanitize_value-SameMark t path name (boolean b) w s s' sd h e = ground arith
  sanitize_value-SameMark t path name (number n) w s s' sd h e = ground arith
  sanitize_value-SameMark t path name (text x) w s s' sd h e = ground arith
  sanitize_value-SameMark t path name (list xs) w s s' sd h e = ground arith
  sanitize_value-SameMark t path name (dict fs) w s s' sd h e =
      elim (sanitize_value-dict t path name fs w s s' sd e) [
        | inl (kept, inl nothing) ↦ rw nothing (refl, refl)
        | inl (kept, inr (gs, written, own)) ↦ rw written (refl, refl)
        | inr (gs, written, plain, ordinary, below) ↦ rw written (refl, refl)
      ]
