-- ===== src/Services/Secrets/Store.antt =====
-- The stored secrets: `persist_secret`, `get_secret` and `get_secret_by_name` of
-- src/rag_eval/db/target_repository.py.
--
-- Key version and metadata, which nothing reads, are left out. Ciphers are of an opaque type.
use rag_eval.Prelude.{
  ℕ, Bool, ◌&&◌, Option, none, some, String, List, [], ◌∷◌, ◌++◌, any, str_eq, is_some,
  if◌then◌else◌,
}

-- KeyError, ValueError, RuntimeError, TypeError, and the database's refusal of a second row with one
-- key.
pub data SecretError : Type 0 where
  key_error value_error runtime_error type_error integrity_error : SecretError

pub data Result {ℓ} (A : Type ℓ) : Type ℓ where
  ok : A → Result A
  err : SecretError → Result A

-- `class TargetSecretRecord`
pub record SecretRecord (C : Type 0) : Type 0 where
  pub secret_id : String
  pub target_id : String
  pub name : String
  pub encrypted_value : C

-- The targets and the secrets of the database, and how many ids have been drawn.
pub record SecretStore (C : Type 0) : Type 0 where
  pub targets : List String
  pub secrets : List (SecretRecord C)
  pub drawn : ℕ

abbrev pub M : Type 0 → Type 0 → Type 0
M C A = SecretStore C → Result (A × SecretStore C)

abbrev pub pure : {C A : Type 0} → A → M C A
pure a s = ok (a, s)

infixl 5 ◌>>=◌
abbrev pub ◌>>=◌ : {C A B : Type 0} → M C A → (A → M C B) → M C B
◌>>=◌ m f s = elim (m s) [ err e ↦ err e | ok (a, s') ↦ f a s' ]

module _ {C : Type 0} where
  abbrev pub is_named : String → String → SecretRecord C → Bool
  is_named target name r = str_eq r.target_id target && str_eq r.name name

  unfoldable pub find_secret : String → List (SecretRecord C) → Option (SecretRecord C)
  find_secret id [] = none
  find_secret id (r ∷ rs) = if str_eq r.secret_id id then some r else find_secret id rs

  unfoldable pub find_named : String → String → List (SecretRecord C) → Option (SecretRecord C)
  find_named target name [] = none
  find_named target name (r ∷ rs) =
      if is_named target name r then some r else find_named target name rs

  -- `get_secret`
  abbrev pub get_secret : String → SecretStore C → Option (SecretRecord C)
  get_secret id s = find_secret id s.secrets

  -- `get_secret_by_name`
  abbrev pub get_secret_by_name : String → String → SecretStore C → Option (SecretRecord C)
  get_secret_by_name target name s = find_named target name s.secrets

  -- `existing.encrypted_value = encrypted_value`
  unfoldable pub set_value : String → String → C → List (SecretRecord C) → List (SecretRecord C)
  set_value target name c [] = []
  set_value target name c (r ∷ rs) =
      if is_named target name r
      then record r { encrypted_value = c } ∷ rs
      else r ∷ set_value target name c rs

  -- `persist_secret`
  unfoldable pub persist_secret : String → String → String → C → M C (Unit {0})
  persist_secret id target name c s =
      if any (λ t. str_eq t target) s.targets
      then (elim (get_secret_by_name target name s) [
        | none ↦
            if is_some (get_secret id s)
            then err integrity_error
            else (let r : SecretRecord C = record {
              secret_id = id;
              target_id = target;
              name = name;
              encrypted_value = c;
            } in
                ok (tt, record s { secrets = s.secrets ++ r ∷ [] }))
        | some existing ↦
            if str_eq existing.secret_id id
            then ok (tt, record s { secrets = set_value target name c s.secrets })
            else err value_error
      ])
      else err key_error
