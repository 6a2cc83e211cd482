-- ===== src/Services/Secrets/Persist.antt =====
-- What `persist_secret` and the drawing of an id keep of the stored secrets.
use rag_eval.Prelude.{
  ℕ, ◌≡◌, refl, subst, ◌∙◌, true, false, not, none, some, is_some, String, List, [], ◌∷◌, ◌++◌,
  str_eq, eq_iff, keep, inl, inr, arith, Bool-cases, Option-cases,
}
use rag_eval.Services.Secrets.Store.{
  ok, SecretRecord, SecretStore, is_named, find_secret, find_named, set_value, persist_secret,
}
use rag_eval.Services.Secrets.Owners.{
  owner_in, owner_in-append, owner_in-append_none, owner_in-set_value, find_named-IsNamed,
  set_value-changed, set_value-others, find_named-append, Extends, IsSound, foreign_secrets,
}

module _ {C : Type 0} where
  -- What an operation for a target keeps.
  pub record Keeps (target : String) (s s' : SecretStore C) : Type 0 where
    pub extends : Extends s s'
    pub sound : IsSound s'
    pub foreign : foreign_secrets target s' ≡ foreign_secrets target s

  pub Keeps-refl : (t : String) (s : SecretStore C) → IsSound s → Keeps t s s
  Keeps-refl t s h = record { extends = λ id u e. e; sound = h; foreign = refl }

  pub Keeps-trans :
      (t : String) (s s' s'' : SecretStore C) → Keeps t s s' → Keeps t s' s'' → Keeps t s s''
  Keeps-trans t s s' s'' a b = record {
    extends = λ id u e. b.extends id u (a.extends id u e);
    sound = b.sound;
    foreign = b.foreign ∙ a.foreign;
  }

  -- A store that differs only in the number of drawn ids.
  pub drawn-Keeps :
      (t : String) (s : SecretStore C) (n : ℕ) → IsSound s → Keeps t s (record s { drawn = n })
  drawn-Keeps t s n h = record {
    extends = λ id u e. e;
    sound = record { named = h.named; no_empty_id = h.no_empty_id };
    foreign = refl;
  }

  find_secret-append :
      (id : String) (rs ss : List (SecretRecord C)) (r : SecretRecord C)
      → find_secret id rs ≡ some r
      → find_secret id (rs ++ ss) ≡ some r
  unfolding find_secret
  find_secret-append id [] ss r h = absurd (ground arith)
  find_secret-append id (x ∷ rs) ss r h = ground (arith, find_secret-append id rs ss r)

  find_secret-append_last :
      (rs : List (SecretRecord C)) (r : SecretRecord C)
      → is_some (find_secret r.secret_id rs) ≡ false
      → find_secret r.secret_id (rs ++ r ∷ []) ≡ some r
  unfolding find_secret
  find_secret-append_last [] r h = ground (arith, eq_iff r.secret_id r.secret_id)
  find_secret-append_last (x ∷ rs) r h = ground (arith, find_secret-append_last rs r)

  foreign-append :
      (rs : List (SecretRecord C)) (r : SecretRecord C)
      → keep (λ (q : SecretRecord C). not (str_eq q.target_id r.target_id)) (rs ++ r ∷ [])
        ≡ keep (λ (q : SecretRecord C). not (str_eq q.target_id r.target_id)) rs
  foreign-append [] r = ground (arith, eq_iff r.target_id r.target_id)
  foreign-append (x ∷ rs) r = ground (arith, foreign-append rs r)

  foreign-set_value :
      (t n : String) (c : C) (rs : List (SecretRecord C))
      → keep (λ (q : SecretRecord C). not (str_eq q.target_id t)) (set_value t n c rs)
        ≡ keep (λ (q : SecretRecord C). not (str_eq q.target_id t)) rs
  unfolding set_value
  foreign-set_value t n c [] = refl
  foreign-set_value t n c (x ∷ rs) = ground (arith, foreign-set_value t n c rs)

  find_named-append_last :
      (t n : String) (rs : List (SecretRecord C)) (r : SecretRecord C)
      → find_named t n rs ≡ none
      → r.target_id ≡ t
      → r.name ≡ n
      → find_named t n (rs ++ r ∷ []) ≡ some r
  unfolding find_named
  find_named-append_last t n [] r h a b = ground (arith, eq_iff r.target_id t, eq_iff r.name n)
  find_named-append_last t n (x ∷ rs) r h a b = ground (arith, find_named-append_last t n rs r)

  -- A secret in a store: the one with an id, which is the one with its name, and its value.
  abbrev pub Holds : SecretStore C → String → String → String → C → Type 0
  Holds s id t n c =
      (r : SecretRecord C) × (find_secret id s.secrets ≡ some r)
      × (find_named t n s.secrets ≡ some r)
      × (r.secret_id ≡ id)
      × (r.target_id ≡ t)
      × (r.encrypted_value ≡ c)

  unowned_single :
      (r : SecretRecord C) → str_eq r.secret_id "" ≡ false → owner_in "" (r ∷ []) ≡ none
  unfolding owner_in
  unowned_single r e = rw e refl

  append-Keeps :
      (s : SecretStore C) (r : SecretRecord C)
      → IsSound s
      → str_eq r.secret_id "" ≡ false
      → is_some (find_secret r.secret_id s.secrets) ≡ false
      → Keeps r.target_id s (record s { secrets = s.secrets ++ r ∷ [] })
  append-Keeps s r h e fresh = record {
    extends = λ id u o. owner_in-append id u s.secrets (r ∷ []) o;
    sound = record {
      named = λ t n q found. elim (find_named-append t n s.secrets r q found) [
        | inl old ↦ find_secret-append q.secret_id s.secrets (r ∷ []) q (h.named t n q old)
        | inr last ↦ rw last.0 (find_secret-append_last s.secrets r fresh)
      ];
      no_empty_id = owner_in-append_none "" s.secrets (r ∷ []) h.no_empty_id ∙ unowned_single r e;
    };
    foreign = foreign-append s.secrets r;
  }

  changed_found :
      (t n u m : String) (c : C) (rs : List (SecretRecord C)) (q r : SecretRecord C)
      → find_named t n rs ≡ some q
      → find_secret q.secret_id rs ≡ some q
      → is_named t n r ≡ true
      → find_named u m (set_value t n c rs) ≡ some r
      → find_secret r.secret_id (set_value t n c rs) ≡ some r
  changed_found t n u m c rs q r found by_id same named =
      let (target, called) = find_named-IsNamed u m (set_value t n c rs) r named in
      let (first, kept) = set_value-changed t n c rs q found by_id in
      let its_target : u ≡ t = ground (arith, eq_iff r.target_id t) in
      let its_name : m ≡ n = ground (arith, eq_iff r.name n, eq_iff r.target_id t) in
      let equal : some (record q { encrypted_value = c }) ≡ some r =
        cc (first, named, its_target, its_name) in
      ground (arith, equal, kept)

  change-Keeps :
      (s : SecretStore C) (t n : String) (c : C) (q : SecretRecord C)
      → IsSound s
      → find_named t n s.secrets ≡ some q
      → Keeps t s (record s { secrets = set_value t n c s.secrets })
  change-Keeps s t n c q h found = record {
    extends = λ id u o. owner_in-set_value id t n c s.secrets ∙ o;
    sound = record {
      named = λ u m r named. elim (Bool-cases (is_named t n r)) [
        | inl same ↦ changed_found t n u m c s.secrets q r found (h.named t n q found) same named
        | inr other ↦
            (set_value-others t n u m r.secret_id c s.secrets r other).1
              (h.named u m r ((set_value-others t n u m r.secret_id c s.secrets r other).0 named))
      ];
      no_empty_id = owner_in-set_value "" t n c s.secrets ∙ h.no_empty_id;
    };
    foreign = foreign-set_value t n c s.secrets;
  }

  -- What `persist_secret` does where it succeeds.
  pub persist_secret-Keeps :
      (id t n : String) (c : C) (s s' : SecretStore C) (u : Unit {0})
      → IsSound s
      → str_eq id "" ≡ false
      → persist_secret id t n c s ≡ ok (u, s')
      → Keeps t s s' × Holds s' id t n c
  unfolding persist_secret
  persist_secret-Keeps id t n c s s' u h e done = elim (Option-cases (find_named t n s.secrets)) [
    | inl new ↦ elim (Bool-cases (is_some (find_secret id s.secrets))) [
      | inl taken ↦ absurd (ground arith)
      | inr fresh ↦
          let r : SecretRecord C = record {
            secret_id = id;
            target_id = t;
            name = n;
            encrypted_value = c;
          } in
          let result : record s { secrets = s.secrets ++ r ∷ [] } ≡ s' = ground arith in
          subst (λ x. Keeps t s x × Holds x id t n c) result
            (
              append-Keeps s r h e fresh,
              (
                r,
                find_secret-append_last s.secrets r fresh,
                find_named-append_last t n s.secrets r new refl refl,
                refl,
                refl,
                refl,
              ),
            )
    ]
    | inr (q, old) ↦ elim (Bool-cases (str_eq q.secret_id id)) [
      | inr differs ↦ absurd (ground arith)
      | inl same ↦
          let result : record s { secrets = set_value t n c s.secrets } ≡ s' = ground arith in
          let its_id : q.secret_id ≡ id = (eq_iff q.secret_id id).0 same in
          let (first, changed) = set_value-changed t n c s.secrets q old (h.named t n q old) in
          let target = (find_named-IsNamed t n s.secrets q old).0 in
          subst (λ x. Keeps t s x × Holds x id t n c) result
            (
              change-Keeps s t n c q h old,
              (
                record q { encrypted_value = c },
                subst
                    (λ i.
                      find_secret i (set_value t n c s.secrets)
                      ≡ some (record q { encrypted_value = c }))
                    its_id changed,
                first,
                its_id,
                target,
                refl,
              ),
            )
    ]
  ]
