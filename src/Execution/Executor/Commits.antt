-- ===== src/Execution/Executor/Commits.antt =====
-- The transactions of the executor (src/rag_eval/execution/engine.py) one by one, and what holds of
-- the durable state after each, so also after a crash between two of them.
use rag_eval.Prelude.{
  ℕ, ◌≡◌, ◌≢◌, ◌⊎◌, inl, inr, Bool, Option, none, some, String, List, [], ◌∷◌, ◌++◌, refl, arith,
}
use rag_eval.Execution.Store.{
  complete, Attempt, CaseStore, get_attempt, update_attempt, get_observation,
}
use rag_eval.Execution.Store.Laws.{KeepsNumber, get_attempt-update, get_attempt-append}
use rag_eval.Execution.Transactions.{
  Inputs, new_attempt, failed_attempt, attach_response, completed_attempt, insert_observation,
  reset_case, next_attempt_number, fail_case, complete_case, completed_state, persist_raw_response,
  contact_target, register_attempt, Registration, not_pending, duplicate, registered,
}

-- To split on how a registration ends.
pub Registration-cases :
    {Observation : Type 0} (r : Registration Observation)
    → (r ≡ not_pending) ⊎ (r ≡ duplicate) ⊎ ((t : CaseStore Observation) × (r ≡ registered t))
Registration-cases not_pending = inl refl
Registration-cases duplicate = inr (inl refl)
Registration-cases (registered t) = inr (inr (t, refl))

module _ {Observation : Type 0} where
  -- Every observation belongs to an attempt.
  abbrev pub Owned : List Attempt → List (ℕ × Observation) → Type 0
  Owned rows [] = Unit
  Owned rows ((n, o) ∷ os) = (get_attempt n rows ≢ none) × Owned rows os

  -- A complete case has an observation, and every observation belongs to an attempt.
  pub record IsConsistent (s : CaseStore Observation) : Type 0 where
    pub complete_observed : s.status ≡ complete → s.observations ≢ []
    pub owned : Owned s.attempts s.observations

  Owned-update :
      (n : ℕ) (f : Attempt → Attempt) (rows : List Attempt) (os : List (ℕ × Observation))
      → KeepsNumber f
      → Owned rows os
      → Owned (update_attempt n f rows) os
  Owned-update n f rows [] k h = tt
  Owned-update n f rows ((m, o) ∷ os) k (h, hs) =
      (get_attempt-update n m f rows k h, Owned-update n f rows os k hs)

  Owned-append :
      (rows more : List Attempt) (os : List (ℕ × Observation))
      → Owned rows os
      → Owned (rows ++ more) os
  Owned-append rows more [] h = tt
  Owned-append rows more ((m, o) ∷ os) (h, hs) =
      (get_attempt-append m rows more h, Owned-append rows more os hs)

  pub reset_case-IsConsistent :
      (s : CaseStore Observation) → IsConsistent s → IsConsistent (reset_case s)
  unfolding reset_case
  reset_case-IsConsistent s h = ground arith

  pub persist_raw_response-IsConsistent :
      (n : ℕ) (id : String) (s : CaseStore Observation)
      → IsConsistent s
      → IsConsistent (persist_raw_response n id s)
  unfolding persist_raw_response
  persist_raw_response-IsConsistent n id s h = record {
    complete_observed = h.complete_observed;
    owned = Owned-update n (attach_response id) s.attempts s.observations (λ a. refl) h.owned;
  }

  pub fail_case-IsConsistent :
      (now : ℕ) (n : Option ℕ) (message : String) (s : CaseStore Observation)
      → IsConsistent s
      → IsConsistent (fail_case now n message s)
  unfolding fail_case
  fail_case-IsConsistent now none message s h = ground arith
  fail_case-IsConsistent now (some n) message s h = ground (
    arith,
    Owned-update n (failed_attempt now message) s.attempts s.observations (λ a. refl) h.owned,
  )

  -- What a committed completion is.
  pub complete_case-eq :
      (score : Option (Observation → Bool)) (now n : ℕ) (o : Observation)
      (s s' : CaseStore Observation)
      → complete_case score now n o s ≡ some s'
      → (s' ≡ completed_state now n o s) × (get_attempt n s.attempts ≢ none)
  unfolding complete_case
  complete_case-eq score now n o s s' e = ground arith

  observed :
      (n : ℕ) (o : Observation) (os : List (ℕ × Observation))
      → get_observation n os ≡ some o
      → os ≢ []
  unfolding get_observation
  observed n o [] h = cc
  observed n o (x ∷ os) h = ground arith

  insert_observation-ne-nil :
      (n : ℕ) (o : Observation) (os : List (ℕ × Observation)) → insert_observation n o os ≢ []
  unfolding insert_observation get_observation
  insert_observation-ne-nil n o [] = ground arith
  insert_observation-ne-nil n o (x ∷ os) = ground arith

  Owned-insert :
      (n : ℕ) (o : Observation) (rows : List Attempt) (os : List (ℕ × Observation))
      → get_attempt n rows ≢ none
      → Owned rows os
      → Owned rows (insert_observation n o os)
  unfolding insert_observation
  Owned-insert n o rows os known h = ground arith

  completed_state-IsConsistent :
      (now n : ℕ) (o : Observation) (s : CaseStore Observation)
      → get_attempt n s.attempts ≢ none
      → IsConsistent s
      → IsConsistent (completed_state now n o s)
  unfolding completed_state
  completed_state-IsConsistent now n o s known h =
      let rows = update_attempt n (completed_attempt now) s.attempts in
      let owned =
        Owned-update n (completed_attempt now) s.attempts s.observations (λ a. refl) h.owned in
      let present = get_attempt-update n n (completed_attempt now) s.attempts (λ a. refl) known in
      record {
        complete_observed = λ c. insert_observation-ne-nil n o s.observations;
        owned = Owned-insert n o rows s.observations present owned;
      }

  -- A completion that commits keeps the state consistent.
  pub complete_case-IsConsistent :
      (score : Option (Observation → Bool)) (now n : ℕ) (o : Observation)
      (s s' : CaseStore Observation)
      → complete_case score now n o s ≡ some s'
      → IsConsistent s
      → IsConsistent s'
  complete_case-IsConsistent score now n o s s' e h =
      let (same, known) = complete_case-eq score now n o s s' e in
      rw same (completed_state-IsConsistent now n o s known h)

  pub contact_target-IsConsistent :
      (s : CaseStore Observation) → IsConsistent s → IsConsistent (contact_target s)
  unfolding contact_target
  contact_target-IsConsistent s h = ground arith

module _ {Response Observation : Type 0} where
  pub register_attempt-IsConsistent :
      (inp : Inputs Response) (n : ℕ) (s s' : CaseStore Observation)
      → register_attempt inp n s ≡ registered s'
      → IsConsistent s
      → IsConsistent s'
  unfolding register_attempt
  register_attempt-IsConsistent inp n s s' e h =
      ground (arith, Owned-append s.attempts (new_attempt inp n ∷ []) s.observations h.owned)

-- One committed step of an executor on a case: one of its transactions, or the call of the target.
pub data Commit (Response : Type 0) {Observation : Type 0}
    : CaseStore Observation → CaseStore Observation → Type 0 where
  reset : (s : CaseStore Observation) → Commit Response s (reset_case s)
  register :
      (inp : Inputs Response) (s s' : CaseStore Observation)
      → register_attempt inp (next_attempt_number s) s ≡ registered s'
      → Commit Response s s'
  contact : (s : CaseStore Observation) → Commit Response s (contact_target s)
  persist :
      (n : ℕ) (id : String) (s : CaseStore Observation)
      → Commit Response s (persist_raw_response n id s)
  completion :
      (score : Option (Observation → Bool)) (now n : ℕ) (o : Observation)
      (s s' : CaseStore Observation)
      → complete_case score now n o s ≡ some s'
      → Commit Response s s'
  fail :
      (now : ℕ) (n : Option ℕ) (message : String) (s : CaseStore Observation)
      → Commit Response s (fail_case now n message s)

pub data Commits (Response : Type 0) {Observation : Type 0} (s : CaseStore Observation)
    : CaseStore Observation → Type 0 where
  none_yet : Commits Response s s
  then :
      {t u : CaseStore Observation}
      → Commits Response s t
      → Commit Response t u
      → Commits Response s u

module _ {Response Observation : Type 0} where
  pub Commit-IsConsistent :
      {s t : CaseStore Observation} → Commit Response s t → IsConsistent s → IsConsistent t
  Commit-IsConsistent (reset s) h = reset_case-IsConsistent s h
  Commit-IsConsistent (register inp s s' e) h =
      register_attempt-IsConsistent inp (next_attempt_number s) s s' e h
  Commit-IsConsistent (contact s) h = contact_target-IsConsistent s h
  Commit-IsConsistent (persist n id s) h = persist_raw_response-IsConsistent n id s h
  Commit-IsConsistent (completion score now n o s s' e) h =
      complete_case-IsConsistent score now n o s s' e h
  Commit-IsConsistent (fail now n message s) h = fail_case-IsConsistent now n message s h

  -- Wherever an executor is stopped between two of its steps, in whatever order they came, a case
  -- that is COMPLETE has an observation, and every observation belongs to one of its attempts.
  pub Commits-IsConsistent :
      {s t : CaseStore Observation} → IsConsistent s → Commits Response s t → IsConsistent t
  Commits-IsConsistent h none_yet = h
  Commits-IsConsistent h (then r c) = Commit-IsConsistent c (Commits-IsConsistent h r)
