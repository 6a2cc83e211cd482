-- ===== src/Metrics/Registry/Laws.antt =====
-- What the registry of src/rag_eval/metrics/registry.py finds.
use rag_eval.Prelude.{
  ◌+◌, ◌≡◌, Bool, true, ◌&&◌, none, some, String, List, [], ◌∷◌, ◌++◌, All, str_eq, eq_iff, length,
  length-append, refl, sym, subst, ap, ◌∙◌, arith, if◌then◌else◌, inl, inr, Bool-cases,
  Option-cases,
}
use rag_eval.Metrics.Registry.{Metric, Key, same_key, get, key_of, register, get_required}

str_eq_refl : (a : String) → str_eq a a ≡ true
str_eq_refl a = (eq_iff a a).1 refl

same_key_refl : (a : Key) → same_key a a ≡ true
same_key_refl (a, b) = rw (str_eq_refl a) (str_eq_refl b)

str_eq-eq : (a b : String) → str_eq a b ≡ true → a ≡ b
str_eq-eq a b h = (eq_iff a b).0 h

both : (p q : Bool) → (p && q) ≡ true → (p ≡ true) × (q ≡ true)
both p q h = ground arith

same_key-eq : (a b : Key) → same_key a b ≡ true → a ≡ b
same_key-eq (a, a') (b, b') h =
    let (p, q) = both (str_eq a b) (str_eq a' b') h in
    let e = str_eq-eq a b p in let e' = str_eq-eq a' b' q in cc

module _ {Context Value : Type 0} where
  -- The registries that registrations build from the empty one.
  pub data Registered : List (Key × Metric Context Value) → Type 0 where
    empty : Registered []
    registers :
        {registry registry' : List (Key × Metric Context Value)} (m : Metric Context Value)
        → Registered registry
        → register m registry ≡ some registry'
        → Registered registry'

  get_append :
      (registry : List (Key × Metric Context Value)) (k j : Key) (m : Metric Context Value)
      → get registry j ≡ none
      → get (registry ++ (j, m) ∷ []) k ≡ (if same_key j k then some m else get registry k)
  unfolding get
  get_append [] k j m h = refl
  get_append ((i, n) ∷ registry) k j m h = elim (Bool-cases (same_key i k)) [
    | inl e ↦ elim (Bool-cases (same_key j k)) [
      | inl f ↦
          let meet : same_key i j ≡ true =
            subst (λ (x : Key). same_key i x ≡ true) (same_key-eq i k e ∙ sym (same_key-eq j k f))
              (same_key_refl i) in
          absurd (ground arith)
      | inr f ↦ ground arith
    ]
    | inr e ↦ ground (arith, get_append registry k j m)
  ]

  register-shape :
      (m : Metric Context Value) (registry registry' : List (Key × Metric Context Value))
      → register m registry ≡ some registry'
      → (get registry (key_of m) ≡ none) × (registry' ≡ registry ++ (key_of m, m) ∷ [])
  unfolding register
  register-shape m registry registry' e = elim (Option-cases (get registry (key_of m))) [
    | inl free ↦ (free, ground arith)
    | inr (n, taken) ↦ absurd (ground arith)
  ]

  -- After a registration that succeeds, the new metric is found under its id and version, every
  -- other lookup answers as before, the registry is one larger, and the same registration fails.
  pub register-get :
      (m : Metric Context Value) (registry registry' : List (Key × Metric Context Value))
      (id version : String)
      → register m registry ≡ some registry'
      → (get_required registry' id version ≡ (
          if same_key (key_of m) (id, version) then some m else get_required registry id version))
        × (length registry' ≡ length registry + 1)
        × (register m registry' ≡ none)
  unfolding get_required register
  register-get m registry registry' id version e =
      let (free, shape) = register-shape m registry registry' e in
      let looked : (k : Key)
          → get registry' k ≡ (if same_key (key_of m) k then some m else get registry k) =
        λ k. ap (λ r. get r k) shape ∙ get_append registry k (key_of m) m free in
      let longer : length registry' ≡ length (registry ++ (key_of m, m) ∷ []) = ap length shape in
      (
        looked (id, version),
        omega (arith, longer, length-append registry ((key_of m, m) ∷ [])),
        rw (looked (key_of m)) (rw (same_key_refl (key_of m)) refl),
      )

  -- An entry that is found under its own definition's id and version.
  abbrev pub Finds : List (Key × Metric Context Value) → Key × Metric Context Value → Type 0
  Finds registry e = get registry (key_of e.1) ≡ some e.1

  Finds-append :
      (registry entries : List (Key × Metric Context Value)) (m : Metric Context Value)
      → get registry (key_of m) ≡ none
      → All (Finds registry) entries
      → All (Finds (registry ++ (key_of m, m) ∷ [])) (entries ++ (key_of m, m) ∷ [])
  Finds-append registry [] m free h =
      (get_append registry (key_of m) (key_of m) m free ∙ rw (same_key_refl (key_of m)) refl, tt)
  Finds-append registry (e ∷ entries) m free h = (
    elim (Bool-cases (same_key (key_of m) (key_of e.1))) [
      | inl clash ↦
          let taken : get registry (key_of e.1) ≡ none =
            subst (λ (x : Key). get registry x ≡ none) (same_key-eq (key_of m) (key_of e.1) clash)
              free in
          let present : get registry (key_of e.1) ≡ some e.1 = h.0 in
          absurd (ground (arith, taken, present))
      | inr other ↦ get_append registry (key_of e.1) (key_of m) m free ∙ rw other h.0
    ],
    Finds-append registry entries m free h.1,
  )

  pub Registered-Finds :
      {registry : List (Key × Metric Context Value)}
      → Registered registry
      → All (Finds registry) registry
  Registered-Finds empty = tt
  Registered-Finds {registry = registry'} (registers {registry = registry} m r e) =
      let (free, shape) = register-shape m registry registry' e in
      subst (λ (x : List (Key × Metric Context Value)). All (Finds x) x) (sym shape)
        (Finds-append registry registry m free (Registered-Finds r))
