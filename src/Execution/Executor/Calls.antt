-- ===== src/Execution/Executor/Calls.antt =====
-- How often the target is called (`_execute_case` of src/rag_eval/execution/engine.py).
use rag_eval.Prelude.{
  ℕ, ◌+◌, ◌≡◌, ◌≢◌, ◌<◌, ◌⊎◌, inl, inr, Bool, Option, none, some, String, [], ◌∷◌, length,
  length-append, refl, arith, Option-cases,
}
use rag_eval.Execution.Store.{CaseExecutionStatus, pending, Attempt, CaseStore, highest}
use rag_eval.Execution.Store.Laws.{length-update_attempt, get_attempt-fresh}
use rag_eval.Execution.Transactions.{
  Inputs, Outcome, returned, raised, new_attempt, failed_attempt, attach_response,
  completed_attempt, reset_case, next_attempt_number, fail_case, complete_case, completed_state,
  persist_raw_response, contact_target, register_attempt, registered,
}
use rag_eval.Execution.Executor.{World, conclude, call_target, attempt_anew, adopt, execute_case}
use rag_eval.Execution.Executor.Commits.{complete_case-eq, Registration-cases}
use rag_eval.Execution.Executor.Guarantees.{execute_case-cases, follow-cases}

-- The same calls and as many attempts.
abbrev pub Quiet : {Observation : Type 0} → CaseStore Observation → CaseStore Observation → Type 0
Quiet s t = (t.calls ≡ s.calls) × (length t.attempts ≡ length s.attempts)

module _ {Observation : Type 0} where
  fail_case-Quiet :
      (now : ℕ) (n : Option ℕ) (message : String) (s : CaseStore Observation)
      → Quiet s (fail_case now n message s)
  unfolding fail_case
  fail_case-Quiet now none message s = ground arith
  fail_case-Quiet now (some n) message s =
      ground (arith, length-update_attempt n (failed_attempt now message) s.attempts)

  complete_case-Quiet :
      (score : Option (Observation → Bool)) (now n : ℕ) (o : Observation)
      (s t : CaseStore Observation)
      → complete_case score now n o s ≡ some t
      → Quiet s t
  unfolding completed_state
  complete_case-Quiet score now n o s t e = ground (
    arith,
    complete_case-eq score now n o s t e,
    length-update_attempt n (completed_attempt now) s.attempts,
  )

  reset_case-Quiet : (s : CaseStore Observation) → Quiet s (reset_case s)
  unfolding reset_case
  reset_case-Quiet s = ground arith

  next_attempt_number-fresh :
      (s : CaseStore Observation) → highest s.attempts < next_attempt_number s
  unfolding next_attempt_number
  next_attempt_number-fresh s = omega arith

  reset_case-pending :
      (s : CaseStore Observation)
      → s.status ≢ CaseExecutionStatus.complete
      → (reset_case s).status ≡ pending
  unfolding reset_case
  reset_case-pending s h = ground arith

module _ {Response Observation : Type 0} where
  register_attempt-pending :
      (inp : Inputs Response) (n : ℕ) (s : CaseStore Observation)
      → s.status ≡ pending
      → highest s.attempts < n
      → (t : CaseStore Observation) × (register_attempt inp n s ≡ registered t)
  unfolding register_attempt
  register_attempt-pending inp n s h fresh = elim (Registration-cases (register_attempt inp n s)) [
    | inl refused ↦ absurd (ground arith)
    | inr (inl known) ↦ absurd (ground (arith, get_attempt-fresh n s.attempts fresh))
    | inr (inr found) ↦ found
  ]

  attempt_anew-registered :
      (w : World Response Observation) (inp : Inputs Response) (s t : CaseStore Observation)
      → register_attempt inp (next_attempt_number (reset_case s)) (reset_case s) ≡ registered t
      → attempt_anew w inp s ≡ call_target w inp (next_attempt_number (reset_case s)) inp.outcome t
  unfolding attempt_anew
  attempt_anew-registered w inp s t e = rw (e, attempt_anew)

module _ {Response Observation : Type 0} (w : World Response Observation) where
  conclude-Quiet :
      (now n : ℕ) (o : Option Observation) (s : CaseStore Observation)
      → Quiet s (conclude w now n o s)
  unfolding conclude
  conclude-Quiet now n none s = fail_case-Quiet now (some n) _ s
  conclude-Quiet now n (some o) s = elim (Option-cases (complete_case w.score now n o s)) [
    | inl e ↦ rw (e, conclude) (fail_case-Quiet now (some n) _ s)
    | inr (t, e) ↦ rw (e, conclude) (complete_case-Quiet w.score now n o s t e)
  ]

  call_target-once :
      (inp : Inputs Response) (n : ℕ) (out : Outcome Response) (s : CaseStore Observation)
      → ((call_target w inp n out s).calls ≡ s.calls + 1)
        × (length (call_target w inp n out s).attempts ≡ length s.attempts)
  unfolding call_target contact_target persist_raw_response
  call_target-once inp n (raised message) s =
      fail_case-Quiet inp.now (some n) message (contact_target s)
  call_target-once inp n (returned r) s =
      let s' = persist_raw_response n inp.response_artifact_id (contact_target s) in
      omega (
        arith,
        conclude-Quiet inp.now n (w.normalize r inp.fresh_request_id) s',
        length-update_attempt n (attach_response inp.response_artifact_id) s.attempts,
      )

  register_attempt-adds :
      (inp : Inputs Response) (n : ℕ) (s t : CaseStore Observation)
      → register_attempt inp n s ≡ registered t
      → (t.calls ≡ s.calls) × (length t.attempts ≡ length s.attempts + 1)
  unfolding register_attempt
  register_attempt-adds inp n s t e =
      ground (arith, length-append s.attempts (new_attempt inp n ∷ []))

  pub attempt_anew-once :
      (inp : Inputs Response) (s : CaseStore Observation)
      → Quiet s (attempt_anew w inp s)
        ⊎ (((attempt_anew w inp s).calls ≡ s.calls + 1)
            × (length (attempt_anew w inp s).attempts ≡ length s.attempts + 1))
  unfolding attempt_anew
  attempt_anew-once inp s =
      let s' = reset_case s in
      let n = next_attempt_number s' in
      elim (Registration-cases (register_attempt inp n s')) [
        | inl e ↦ inl (rw (e, attempt_anew) (reset_case-Quiet s))
        | inr (inl e) ↦ inl (
            rw (e, attempt_anew)
              (
                omega (
                  arith,
                  reset_case-Quiet s,
                  fail_case-Quiet inp.now (some n) "attempt already exists" s',
                ),
                omega (
                  arith,
                  reset_case-Quiet s,
                  fail_case-Quiet inp.now (some n) "attempt already exists" s',
                ),
              ))
        | inr (inr (t, e)) ↦ inr (
            rw (e, attempt_anew)
              (omega (
                arith,
                reset_case-Quiet s,
                register_attempt-adds inp n s' t e,
                call_target-once inp n inp.outcome t,
              )))
      ]

  -- A case that is not complete gets its new attempt and its new request.
  pub attempt_anew-calls :
      (inp : Inputs Response) (s : CaseStore Observation)
      → s.status ≢ CaseExecutionStatus.complete
      → ((attempt_anew w inp s).calls ≡ s.calls + 1)
        × (length (attempt_anew w inp s).attempts ≡ length s.attempts + 1)
  attempt_anew-calls inp s h =
      let s' = reset_case s in
      let n = next_attempt_number s' in
      let (t, e) =
        register_attempt-pending inp n s' (reset_case-pending s h) (next_attempt_number-fresh s') in
      rw (attempt_anew-registered w inp s t e) (
        omega (
          arith,
          reset_case-Quiet s,
          register_attempt-adds inp n s' t e,
          call_target-once inp n inp.outcome t,
        ))

  pub adopt-Quiet :
      (now : ℕ) (latest : Option Attempt) (o : Observation) (s : CaseStore Observation)
      → Quiet s (adopt w now latest o s)
  unfolding adopt
  adopt-Quiet now none o s = fail_case-Quiet now none _ s
  adopt-Quiet now (some a) o s = conclude-Quiet now a.attempt_number (some o) s

  -- One execution either sends no request and records no attempt, or sends one request and records
  -- one attempt, whatever it meets.
  pub execute_case-once :
      (inp : Inputs Response) (s : CaseStore Observation)
      → Quiet s (execute_case w inp s)
        ⊎ (((execute_case w inp s).calls ≡ s.calls + 1)
            × (length (execute_case w inp s).attempts ≡ length s.attempts + 1))
  execute_case-once inp s = elim (execute_case-cases w inp s) [
    | inl (n, message, e) ↦ rw e (inl (fail_case-Quiet inp.now n message s))
    | inr (d, _, e) ↦ rw e (elim (follow-cases w inp s d) [
      | inl same ↦ rw same (inl (refl, refl))
      | inr (inl (o, adopted)) ↦ rw adopted (inl (adopt-Quiet inp.now _ o s))
      | inr (inr anew) ↦ rw anew (attempt_anew-once inp s)
    ])
  ]
