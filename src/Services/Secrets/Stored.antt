-- ===== src/Services/Secrets/Stored.antt =====
-- What the operations of src/rag_eval/services/secret_service.py on single values do.
use rag_eval.Prelude.{
  ℕ, suc, ◌≡◌, refl, sym, ap, subst, ◌∙◌, false, none, some, String, List, str_eq, eq_iff, ◌⊎◌, inl,
  inr, arith, Bool-cases, Option-cases,
}
use rag_eval.Json.{Json, null, boolean, number, text, list, dict, Fields}
use rag_eval.Services.Secrets.Names.{format_path}
use rag_eval.Services.Secrets.Store.{
  SecretError, Result, ok, err, SecretRecord, SecretStore, find_secret, find_named, persist_secret,
}
use rag_eval.Services.Secrets.Sanitize.{
  SecretRef, Cryptography, read_ref, dump_ref, owned_secret, choose_id, store_plaintext, keep_ref,
}
use rag_eval.Services.Secrets.Owners.{owner, owner_in-find_secret, IsSound}
use rag_eval.Services.Secrets.Persist.{
  Keeps, Keeps-refl, Keeps-trans, drawn-Keeps, Holds, persist_secret-Keeps,
}

pub Result-cases {ℓ} :
    {A : Type ℓ} (r : Result A) → ((a : A) × (r ≡ ok a)) ⊎ ((e : SecretError) × (r ≡ err e))
Result-cases (ok a) = inl (a, refl)
Result-cases (err e) = inr (e, refl)

-- The ids that are drawn are never empty.
abbrev pub DrawsIds : {C : Type 0} → Cryptography C → Type 0
DrawsIds c = (n : ℕ) → str_eq (c.fresh_id n) "" ≡ false

pub owned-nonempty :
    {C : Type 0} (s : SecretStore C) (id t : String)
    → IsSound s
    → owner id s ≡ some t
    → str_eq id "" ≡ false
owned-nonempty s id t h o = elim (Bool-cases (str_eq id "")) [
  | inr e ↦ e
  | inl e ↦
      let empty : id ≡ "" = (eq_iff id "").0 e in
      let none_owns : owner id s ≡ none = subst (λ i. owner i s ≡ none) (sym empty) h.no_empty_id in
      absurd (ground (arith, none_owns))
]

-- The reference to a secret of the target, as a configuration holds it.
abbrev pub IsOwnRef : {C N : Type 0} → String → SecretStore C → Fields N → Type 0
IsOwnRef t s fs =
    (r : SecretRef) × (fs ≡ dump_ref r)
    × (str_eq r.secret_id "" ≡ false)
    × (owner r.secret_id s ≡ some t)

module _ {C : Type 0} (c : Cryptography C) (draws : DrawsIds c) where
  pub choose_id-Keeps :
      (t n : String) (s s' : SecretStore C) (id : String)
      → IsSound s
      → choose_id c t n s ≡ ok (id, s')
      → Keeps t s s' × (str_eq id "" ≡ false)
  unfolding choose_id
  choose_id-Keeps t n s s' id h e = elim (Option-cases (find_named t n s.secrets)) [
    | inl new ↦
        let same_id : c.fresh_id s.drawn ≡ id = ground arith in
        let result : record s { drawn = suc s.drawn } ≡ s' = ground arith in
        (
          subst (λ x. Keeps t s x) result (drawn-Keeps t s (suc s.drawn) h),
          subst (λ i. str_eq i "" ≡ false) same_id (draws s.drawn),
        )
    | inr (q, old) ↦
        let same_id : q.secret_id ≡ id = ground arith in
        let result : s ≡ s' = ground arith in
        let owned = owner_in-find_secret q.secret_id s.secrets q (h.named t n q old) in
        (
          subst (λ x. Keeps t s x) result (Keeps-refl t s h),
          subst (λ i. str_eq i "" ≡ false) same_id
              (owned-nonempty s q.secret_id q.target_id h owned),
        )
  ]

  -- A stored text is replaced by a reference to it, and can be read back.
  pub store_plaintext-Keeps :
      {N : Type 0} (t : String) (path : List String) (v w : Json N) (s s' : SecretStore C)
      → IsSound s
      → store_plaintext c t path v s ≡ ok (w, s')
      → Keeps t s s'
        × ((x : String) × (r : SecretRef) × (name : String) × (v ≡ text x)
            × (w ≡ dict (dump_ref r))
            × (r.name ≡ some name)
            × (format_path path ≡ some name)
            × (str_eq r.secret_id "" ≡ false)
            × Holds s' r.secret_id t name (c.encrypt x))
  unfolding store_plaintext
  store_plaintext-Keeps t path null w s s' h e = absurd (ground arith)
  store_plaintext-Keeps t path (boolean b) w s s' h e = absurd (ground arith)
  store_plaintext-Keeps t path (number n) w s s' h e = absurd (ground arith)
  store_plaintext-Keeps t path (list xs) w s s' h e = absurd (ground arith)
  store_plaintext-Keeps t path (dict fs) w s s' h e = absurd (ground arith)
  store_plaintext-Keeps t path (text x) w s s' h e = elim (Bool-cases (str_eq x "")) [
    | inl empty ↦ absurd (ground arith)
    | inr some_text ↦ elim (Option-cases (format_path path)) [
      | inl no_path ↦ absurd (ground arith)
      | inr (name, named) ↦ elim (Result-cases (choose_id c t name s)) [
        | inr (e', refused) ↦ absurd (ground arith)
        | inl ((id, s1), chosen) ↦
            let (kept, nonempty) = choose_id-Keeps t name s s1 id h chosen in
            elim (Result-cases (persist_secret id t name (c.encrypt x) s1)) [
              | inr (e', refused) ↦ absurd (ground arith)
              | inl ((u, s2), persisted) ↦
                  let (kept', holds) =
                    persist_secret-Keeps id t name (c.encrypt x) s1 s2 u kept.sound nonempty
                      persisted in
                  let r : SecretRef = record { secret_id = id; name = some name } in
                  let result : s2 ≡ s' = ground arith in
                  let written : w ≡ dict (dump_ref r) = ground arith in
                  (
                    subst (λ z. Keeps t s z) result (Keeps-trans t s s1 s2 kept kept'),
                    (
                      x,
                      r,
                      name,
                      refl,
                      written,
                      refl,
                      named,
                      nonempty,
                      subst (λ z. Holds z id t name (c.encrypt x)) result holds,
                    ),
                  )
            ]
      ]
    ]
  ]

  -- A kept reference is one to the target's own secret, and the store stays as it is.
  pub keep_ref-Keeps :
      {N : Type 0} (t : String) (fs : Fields N) (w : Json N) (s s' : SecretStore C)
      → IsSound s
      → keep_ref t fs s ≡ ok (w, s')
      → (s ≡ s') × ((gs : Fields N) × (w ≡ dict gs) × IsOwnRef t s' gs)
  unfolding keep_ref owned_secret
  keep_ref-Keeps t fs w s s' h e = elim (Option-cases (read_ref fs)) [
    | inl invalid ↦ absurd (ground arith)
    | inr (r, valid) ↦ elim (Option-cases (find_secret r.secret_id s.secrets)) [
      | inl lost ↦ absurd (ground arith)
      | inr (row, found) ↦ elim (Bool-cases (str_eq row.target_id t)) [
        | inr theirs ↦ absurd (ground arith)
        | inl ours ↦
            let same : s ≡ s' = ground arith in
            let written : w ≡ dict (dump_ref r) = ground arith in
            let target : row.target_id ≡ t = (eq_iff row.target_id t).0 ours in
            let owned : owner r.secret_id s ≡ some t =
              owner_in-find_secret r.secret_id s.secrets row found ∙ ap some target in
            (
              same,
              (
                dump_ref r,
                written,
                (
                  r,
                  refl,
                  owned-nonempty s r.secret_id t h owned,
                  subst (λ z. owner r.secret_id z ≡ some t) same owned,
                ),
              ),
            )
      ]
    ]
  ]

  -- A secret whose name is taken keeps its id.
  pub store_plaintext-same_id :
      {N : Type 0} (t name y : String) (path : List String) (w : Json N) (s s' : SecretStore C)
      (row : SecretRecord C) (r : SecretRef)
      → format_path path ≡ some name
      → find_named t name s.secrets ≡ some row
      → store_plaintext c t path (text y) s ≡ ok (w, s')
      → w ≡ dict (dump_ref r)
      → r.secret_id ≡ row.secret_id
  unfolding store_plaintext choose_id dump_ref
  store_plaintext-same_id t name y path w s s' row r named old e written =
      elim (Result-cases (persist_secret row.secret_id t name (c.encrypt y) s)) [
        | inr (e', refused) ↦ absurd (ground arith)
        | inl ((u, s2), persisted) ↦ ground arith
      ]
