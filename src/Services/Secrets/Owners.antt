-- ===== src/Services/Secrets/Owners.antt =====
-- Who owns which secret (src/rag_eval/db/target_repository.py), and what `persist_secret` keeps.
use rag_eval.Prelude.{
  ◌≡◌, refl, ap, true, false, not, Option, none, some, is_some, String, List, [], ◌∷◌, ◌++◌, str_eq,
  eq_iff, keep, ◌⊎◌, inl, inr, arith, Bool-cases, if◌then◌else◌,
}
use rag_eval.Services.Secrets.Store.{
  SecretRecord, SecretStore, is_named, find_secret, find_named, set_value,
}

module _ {C : Type 0} where
  -- The target of the secret with an id.
  unfoldable pub owner_in : String → List (SecretRecord C) → Option String
  owner_in id [] = none
  owner_in id (r ∷ rs) = if str_eq r.secret_id id then some r.target_id else owner_in id rs

  abbrev pub owner : String → SecretStore C → Option String
  owner id s = owner_in id s.secrets

  pub owner_in-find_secret :
      (id : String) (rs : List (SecretRecord C)) (r : SecretRecord C)
      → find_secret id rs ≡ some r
      → owner_in id rs ≡ some r.target_id
  unfolding owner_in find_secret
  owner_in-find_secret id [] r h = cc
  owner_in-find_secret id (x ∷ rs) r h = ground (arith, owner_in-find_secret id rs r)

  pub find_secret-owner_in :
      (id t : String) (rs : List (SecretRecord C))
      → owner_in id rs ≡ some t
      → (r : SecretRecord C) × (find_secret id rs ≡ some r) × (r.target_id ≡ t)
  unfolding owner_in find_secret
  find_secret-owner_in id t [] h = absurd (ground arith)
  find_secret-owner_in id t (x ∷ rs) h = elim (Bool-cases (str_eq x.secret_id id)) [
    | inl e ↦ (x, rw (e, find_secret) refl, ground arith)
    | inr e ↦
        let (r, found, mine) = find_secret-owner_in id t rs (ground arith) in
        (r, rw (e, find_secret) found, mine)
  ]

  pub owner_in-append :
      (id t : String) (rs ss : List (SecretRecord C))
      → owner_in id rs ≡ some t
      → owner_in id (rs ++ ss) ≡ some t
  unfolding owner_in
  owner_in-append id t [] ss h = absurd (ground arith)
  owner_in-append id t (r ∷ rs) ss h = ground (arith, owner_in-append id t rs ss)

  pub owner_in-append_none :
      (id : String) (rs ss : List (SecretRecord C))
      → owner_in id rs ≡ none
      → owner_in id (rs ++ ss) ≡ owner_in id ss
  unfolding owner_in
  owner_in-append_none id [] ss h = refl
  owner_in-append_none id (r ∷ rs) ss h = ground (arith, owner_in-append_none id rs ss)

  pub owner_in-set_value :
      (id t n : String) (c : C) (rs : List (SecretRecord C))
      → owner_in id (set_value t n c rs) ≡ owner_in id rs
  unfolding owner_in set_value
  owner_in-set_value id t n c [] = refl
  owner_in-set_value id t n c (r ∷ rs) = ground (arith, owner_in-set_value id t n c rs)

  find_secret-none :
      (id : String) (rs : List (SecretRecord C))
      → is_some (find_secret id rs) ≡ false
      → owner_in id rs ≡ none
  unfolding owner_in find_secret
  find_secret-none id [] h = refl
  find_secret-none id (r ∷ rs) h = ground (arith, find_secret-none id rs)

  pub find_named-IsNamed :
      (t n : String) (rs : List (SecretRecord C)) (r : SecretRecord C)
      → find_named t n rs ≡ some r
      → (r.target_id ≡ t) × (r.name ≡ n)
  unfolding find_named
  find_named-IsNamed t n [] r h = absurd (ground arith)
  find_named-IsNamed t n (x ∷ rs) r h =
      ground (arith, eq_iff x.target_id t, eq_iff x.name n, find_named-IsNamed t n rs r)

  -- The changed secret is found, by its name and by its id.
  pub set_value-changed :
      (t n : String) (c : C) (rs : List (SecretRecord C)) (q : SecretRecord C)
      → find_named t n rs ≡ some q
      → find_secret q.secret_id rs ≡ some q
      → (find_named t n (set_value t n c rs) ≡ some (record q { encrypted_value = c }))
        × (find_secret q.secret_id (set_value t n c rs) ≡ some (record q { encrypted_value = c }))
  unfolding find_named find_secret set_value
  set_value-changed t n c [] q h k = absurd (ground arith)
  set_value-changed t n c (x ∷ rs) q h k = elim (Bool-cases (is_named t n x)) [
    | inl e ↦
        let same : x ≡ q = ground arith in
        let id_found : str_eq x.secret_id q.secret_id ≡ true =
          (eq_iff _ _).1 (ap (λ r. r.secret_id) same) in
        ground arith
    | inr e ↦ elim (Bool-cases (str_eq x.secret_id q.secret_id)) [
      | inl e' ↦
          let found : find_named t n rs ≡ some q = ground arith in
          let (mine, called) = find_named-IsNamed t n rs q found in
          absurd (ground (arith, eq_iff q.target_id t, eq_iff q.name n))
      | inr e' ↦
          let (named, kept) = set_value-changed t n c rs q (ground arith) (ground arith) in
          ground arith
    ]
  ]

  -- Every other secret is found as before.
  pub set_value-others :
      (t n u m id : String) (c : C) (rs : List (SecretRecord C)) (r : SecretRecord C)
      → is_named t n r ≡ false
      → (find_named u m (set_value t n c rs) ≡ some r → find_named u m rs ≡ some r)
        × (find_secret id rs ≡ some r → find_secret id (set_value t n c rs) ≡ some r)
  unfolding find_named find_secret set_value
  set_value-others t n u m id c [] r e = (λ h. h, λ h. h)
  set_value-others t n u m id c (x ∷ rs) r e = ground (arith, set_value-others t n u m id c rs r e)

  pub find_named-append :
      (t n : String) (rs : List (SecretRecord C)) (x r : SecretRecord C)
      → find_named t n (rs ++ x ∷ []) ≡ some r
      → (find_named t n rs ≡ some r) ⊎ ((r ≡ x) × (x.target_id ≡ t))
  unfolding find_named
  find_named-append t n [] x r h = elim (Bool-cases (is_named t n x)) [
    | inl e ↦ inr (ground arith, ground (arith, eq_iff x.target_id t))
    | inr e ↦ absurd (ground arith)
  ]
  find_named-append t n (y ∷ rs) x r h = elim (Bool-cases (is_named t n y)) [
    | inl e ↦ inl (ground arith)
    | inr e ↦ elim (find_named-append t n rs x r (ground arith)) [
      | inl found ↦ inl (rw (e, find_named) found)
      | inr last ↦ inr last
    ]
  ]

  -- What is kept of a store: the owners of its secrets.
  abbrev pub Extends : SecretStore C → SecretStore C → Type 0
  Extends s s' = (id t : String) → owner id s ≡ some t → owner id s' ≡ some t

  -- A secret that is found by its name is the one with its id, and no id is empty.
  pub record IsSound (s : SecretStore C) : Type 0 where
    pub named :
        (t n : String) (r : SecretRecord C)
        → find_named t n s.secrets ≡ some r
        → find_secret r.secret_id s.secrets ≡ some r
    pub no_empty_id : owner "" s ≡ none

  -- The secrets of the other targets.
  abbrev pub foreign_secrets : String → SecretStore C → List (SecretRecord C)
  foreign_secrets t s = keep (λ (r : SecretRecord C). not (str_eq r.target_id t)) s.secrets
