-- ===== src/Services/Secrets/Sanitized.antt =====
-- A sanitized configuration (src/rag_eval/services/secret_service.py) holds no plaintext secret, and
-- sanitizing it changes only the secrets of its own target.
use rag_eval.Prelude.{
  ℕ, suc, ◌≡◌, refl, sym, subst, ◌∙◌, false, Option, none, some, String, List, [], ◌∷◌, ◌++◌,
  str_eq, eq_iff, inl, inr, arith, Bool-cases,
}
use rag_eval.Json.{
  Json, null, boolean, number, text, list, dict, Items, no_items, item, Fields, no_fields, field,
  member, has_key,
}
use rag_eval.Services.Secrets.Names.{is_secret_field}
use rag_eval.Prelude.Decimal.{index_text}
use rag_eval.Services.Secrets.Store.{ok, SecretStore}
use rag_eval.Services.Secrets.Sanitize.{
  Cryptography, is_secret, is_nonempty_text, is_true, looks_like_secret_ref,
  looks_like_explicit_secret, sanitize_scalar, sanitize_value, sanitize_items, sanitize_fields,
}
use rag_eval.Services.Secrets.Owners.{IsSound}
use rag_eval.Services.Secrets.Persist.{Keeps, Keeps-refl, Keeps-trans}
use rag_eval.Services.Secrets.Stored.{DrawsIds, Result-cases}
use rag_eval.Services.Secrets.Clean.{
  IsClean, AreClean, FieldsClean, extend-IsClean, SameMark, sanitize_value-SameMark,
  sanitize_value-dict, plaintext-IsOwnRef,
}

module _ {C N : Type 0} (c : Cryptography C) (draws : DrawsIds c) (t : String) where
  scalar-IsClean :
      (path : List String) (name : Option String) (v w : Json N) (s s' : SecretStore C)
      → IsSound s
      → (is_secret name ≡ false → IsClean t s name v)
      → sanitize_scalar c t path name v s ≡ ok (w, s')
      → Keeps t s s' × IsClean t s' name w
  unfolding sanitize_scalar IsClean
  scalar-IsClean path name v w s s' h plain e = elim (Bool-cases (is_secret name)) [
    | inl secret ↦
        let (kept, (gs, written, own)) =
          plaintext-IsOwnRef c draws t path v w s s' h (ground arith) in
        (kept, rw written (inl own))
    | inr open_name ↦
        let same : s ≡ s' = ground arith in
        let unchanged : v ≡ w = ground arith in
        (
          subst (λ z. Keeps t s z) same (Keeps-refl t s h),
          subst (λ z. IsClean t z name w) same
              (subst (λ x. IsClean t s name x) unchanged (plain open_name)),
        )
  ]

  -- What the fields of a dict become.
  record FieldsKept (fs gs : Fields N) (s s' : SecretStore C) : Type 0 where
    keeps : Keeps t s s'
    clean : FieldsClean t s' gs
    marks :
        (k : String)
        → is_secret_field k ≡ false
        → (is_nonempty_text (member k gs) ≡ is_nonempty_text (member k fs))
          × (is_true (member k gs) ≡ is_true (member k fs))
    keys : (k : String) → has_key k gs ≡ has_key k fs

  -- The marks of a dict with one more field.
  more_marks :
      (j k : String) (v w : Json N) (fs gs : Fields N)
      → (is_secret_field j ≡ false → SameMark v w)
      → is_secret_field k ≡ false
      → (is_nonempty_text (member k gs) ≡ is_nonempty_text (member k fs))
        × (is_true (member k gs) ≡ is_true (member k fs))
      → (is_nonempty_text (member k (field j w gs)) ≡ is_nonempty_text (member k (field j v fs)))
        × (is_true (member k (field j w gs)) ≡ is_true (member k (field j v fs)))
  unfolding member
  more_marks j k v w fs gs first open_name rest = elim (Bool-cases (str_eq j k)) [
    | inl same ↦
        let open_first : is_secret_field j ≡ false =
          subst (λ n. is_secret_field n ≡ false) (sym ((eq_iff j k).0 same)) open_name in
        rw (same, member) (first open_first)
    | inr other ↦ rw (other, member) rest
  ]

  more_keys :
      (j k : String) (v w : Json N) (fs gs : Fields N)
      → has_key k gs ≡ has_key k fs
      → has_key k (field j w gs) ≡ has_key k (field j v fs)
  unfolding member
  more_keys j k v w fs gs rest = ground arith

  -- A dict whose fields kept their marks looks like a reference or a secret where it did before.
  kept_shape :
      (fs gs : Fields N) (s s' : SecretStore C)
      → FieldsKept fs gs s s'
      → (looks_like_secret_ref gs ≡ looks_like_secret_ref fs)
        × (looks_like_explicit_secret gs ≡ looks_like_explicit_secret fs)
  unfolding looks_like_secret_ref looks_like_explicit_secret is_secret_field
  kept_shape fs gs s s' kept =
      let (id, other) = kept.marks "secret_id" refl in
      let (text_mark, flag) = kept.marks "secret" refl in
      (id, rw flag (rw (kept.keys "value") refl))

  mutual
    unfolding sanitize_value IsClean

    pub value-IsClean :
        (path : List String) (name : Option String) (v w : Json N) (s s' : SecretStore C)
        → IsSound s
        → sanitize_value c t path name v s ≡ ok (w, s')
        → Keeps t s s' × IsClean t s' name w
    value-IsClean path name null w s s' h e =
        let nothing : null ≡ w = ground arith in
        (
          subst (λ z. Keeps t s z) (ground arith) (Keeps-refl t s h),
          subst (λ x. IsClean t s' name x) nothing tt,
        )
    value-IsClean path name (boolean b) w s s' h e =
        scalar-IsClean path name (boolean b) w s s' h (λ p. p) e
    value-IsClean path name (number n) w s s' h e =
        scalar-IsClean path name (number n) w s s' h (λ p. p) e
    value-IsClean path name (text x) w s s' h e =
        scalar-IsClean path name (text x) w s s' h (λ p. p) e
    value-IsClean path name (list xs) w s s' h e =
        elim (Result-cases (sanitize_items c t path 0 xs s)) [
          | inr (e', refused) ↦ absurd (ground arith)
          | inl ((ys, s1), below) ↦
              let (kept, clean) = items-AreClean path 0 xs ys s s1 h below in
              let result : s1 ≡ s' = ground arith in
              let written : list ys ≡ w = ground arith in
              (
                subst (λ z. Keeps t s z) result kept,
                subst (λ x. IsClean t s' name x) written
                    (subst (λ z. AreClean t z ys) result clean),
              )
        ]
    value-IsClean path name (dict fs) w s s' h e =
        elim (sanitize_value-dict c draws t path name fs w s s' h e) [
          | inl (kept, inl nothing) ↦ (kept, rw nothing tt)
          | inl (kept, inr (gs, written, own)) ↦ (kept, rw written (inl own))
          | inr (gs, written, plain, ordinary, below) ↦
              let kept = fields-AreClean path fs gs s s' h below in
              let (ref, secret) = kept_shape fs gs s s' kept in
              (kept.keeps, rw written (inr (ref ∙ plain, secret ∙ ordinary, kept.clean)))
        ]

    items-AreClean :
        (path : List String) (index : ℕ) (xs ys : Items N) (s s' : SecretStore C)
        → IsSound s
        → sanitize_items c t path index xs s ≡ ok (ys, s')
        → Keeps t s s' × AreClean t s' ys
    items-AreClean path index no_items ys s s' h e =
        let nothing : no_items ≡ ys = ground arith in
        (
          subst (λ z. Keeps t s z) (ground arith) (Keeps-refl t s h),
          subst (λ x. AreClean t s' x) nothing tt,
        )
    items-AreClean path index (item v xs) ys s s' h e =
        elim (Result-cases (sanitize_value c t (path ++ index_text index ∷ []) none v s)) [
          | inr (e', refused) ↦ absurd (ground arith)
          | inl ((w, s1), first) ↦ elim (Result-cases (sanitize_items c t path (suc index) xs s1)) [
            | inr (e', refused) ↦ absurd (ground arith)
            | inl ((zs, s2), rest) ↦
                let (kept, clean) =
                  value-IsClean (path ++ index_text index ∷ []) none v w s s1 h first in
                let (kept', clean') = items-AreClean path (suc index) xs zs s1 s2 kept.sound rest in
                let result : s2 ≡ s' = ground arith in
                let written : item w zs ≡ ys = ground arith in
                (
                  subst (λ z. Keeps t s z) result (Keeps-trans t s s1 s2 kept kept'),
                  subst (λ x. AreClean t s' x) written
                      (subst (λ z. AreClean t z (item w zs)) result
                        (extend-IsClean t s1 s2 none w kept'.extends clean, clean')),
                )
          ]
        ]

    fields-AreClean :
        (path : List String) (fs gs : Fields N) (s s' : SecretStore C)
        → IsSound s
        → sanitize_fields c t path fs s ≡ ok (gs, s')
        → FieldsKept fs gs s s'
    fields-AreClean path no_fields gs s s' h e =
        let result : s ≡ s' = ground arith in
        let nothing : no_fields ≡ gs = ground arith in
        subst (λ x. FieldsKept no_fields x s s') nothing
          (subst (λ z. FieldsKept no_fields no_fields s z) result
            (record {
              keeps = Keeps-refl t s h;
              clean = tt;
              marks = λ k p. (refl, refl);
              keys = λ k. refl;
            }))
    fields-AreClean path (field k v fs) gs s s' h e =
        elim (Result-cases (sanitize_value c t (path ++ k ∷ []) (some k) v s)) [
          | inr (e', refused) ↦ absurd (ground arith)
          | inl ((w, s1), first) ↦ elim (Result-cases (sanitize_fields c t path fs s1)) [
            | inr (e', refused) ↦ absurd (ground arith)
            | inl ((hs, s2), rest) ↦
                let (kept, clean) = value-IsClean (path ++ k ∷ []) (some k) v w s s1 h first in
                let below = fields-AreClean path fs hs s1 s2 kept.sound rest in
                let result : s2 ≡ s' = ground arith in
                let written : field k w hs ≡ gs = ground arith in
                subst (λ x. FieldsKept (field k v fs) x s s') written
                  (subst (λ z. FieldsKept (field k v fs) (field k w hs) s z) result
                    (record {
                      keeps = Keeps-trans t s s1 s2 kept below.keeps;
                      clean = (
                        extend-IsClean t s1 s2 (some k) w below.keeps.extends clean,
                        below.clean,
                      );
                      marks = λ j p.
                          more_marks k j v w fs hs
                            (λ q.
                              sanitize_value-SameMark c draws t (path ++ k ∷ []) (some k) v w s s1 h
                                q first)
                            p (below.marks j p);
                      keys = λ j. more_keys k j v w fs hs (below.keys j);
                    }))
          ]
        ]
