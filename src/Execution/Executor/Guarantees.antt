-- ===== src/Execution/Executor/Guarantees.antt =====
-- What one execution of a case (`_execute_case` of src/rag_eval/execution/engine.py) does as a whole.
use rag_eval.Prelude.{
  ℕ, ◌≡◌, ◌≢◌, ◌⊎◌, inl, inr, Option, none, some, String, refl, arith, Option-cases,
}
use rag_eval.Execution.Store.{Attempt, CaseStore, latest_attempt}
use rag_eval.Execution.Recovery.{RecoveryAction, RecoveryDecision, skip}
use rag_eval.Execution.Transactions.{
  Inputs, Outcome, returned, raised, reset_case, next_attempt_number, fail_case, complete_case,
  register_attempt,
}
use rag_eval.Execution.Executor.{
  World, conclude, call_target, attempt_anew, adopt, decide, follow, execute_case,
}
use rag_eval.Execution.Executor.Commits.{
  IsConsistent, reset, register, contact, persist, completion, fail, Commits, none_yet, then,
  Commits-IsConsistent, Registration-cases,
}

skip-cases : (a : RecoveryAction) → (a ≡ skip) ⊎ (a ≢ skip)
skip-cases skip = inl refl
skip-cases _ = inr (ground arith)

module _ {Response Observation : Type 0} (w : World Response Observation) where
  conclude-Commits :
      (now n : ℕ) (o : Option Observation) {s t : CaseStore Observation}
      → Commits Response s t
      → Commits Response s (conclude w now n o t)
  unfolding conclude
  conclude-Commits now n none r = then r (fail now (some n) _ _)
  conclude-Commits now n (some o) {s} {t} r =
      elim (Option-cases (complete_case w.score now n o t)) [
        | inl refused ↦ rw (refused, conclude) (then r (fail now (some n) _ t))
        | inr (t', e) ↦ rw (e, conclude) (then r (completion w.score now n o t t' e))
      ]

  call_target-Commits :
      (inp : Inputs Response) (n : ℕ) (out : Outcome Response) {s t : CaseStore Observation}
      → Commits Response s t
      → Commits Response s (call_target w inp n out t)
  unfolding call_target
  call_target-Commits inp n (raised message) {s} {t} r =
      then (then r (contact t)) (fail inp.now (some n) message _)
  call_target-Commits inp n (returned a) {s} {t} r =
      conclude-Commits inp.now n (w.normalize a inp.fresh_request_id)
        (then (then r (contact t)) (persist n inp.response_artifact_id _))

  attempt_anew-Commits :
      (inp : Inputs Response) (s : CaseStore Observation)
      → Commits Response s (attempt_anew w inp s)
  unfolding attempt_anew
  attempt_anew-Commits inp s =
      let s' = reset_case s in
      let n = next_attempt_number s' in
      elim (Registration-cases (register_attempt inp n s')) [
        | inl refused ↦ rw (refused, attempt_anew) (then none_yet (reset s))
        | inr (inl known) ↦
            rw (known, attempt_anew) (then (then none_yet (reset s)) (fail inp.now (some n) _ s'))
        | inr (inr (t, e)) ↦
            rw (e, attempt_anew)
              (call_target-Commits inp n inp.outcome
                (then (then none_yet (reset s)) (register inp s' t e)))
      ]

  adopt-Commits :
      (now : ℕ) (latest : Option Attempt) (o : Observation) (s : CaseStore Observation)
      → Commits Response s (adopt w now latest o s)
  unfolding adopt
  adopt-Commits now none o s = then none_yet (fail now none _ s)
  adopt-Commits now (some a) o s = conclude-Commits now a.attempt_number (some o) none_yet

  -- Where a decision leads.
  pub follow-cases :
      (inp : Inputs Response) (s : CaseStore Observation) (d : RecoveryDecision Observation)
      → (follow w inp s d ≡ s)
        ⊎ ((o : Observation) × (follow w inp s d ≡ adopt w inp.now (latest_attempt s.attempts) o s))
        ⊎ (follow w inp s d ≡ attempt_anew w inp s)
  unfolding follow
  follow-cases inp s d = elim (Option-cases d.observation) [
    | inl e ↦ elim (skip-cases d.action) [
      | inl skipped ↦ inl (ground arith)
      | inr acted ↦ inr (inr (ground arith))
    ]
    | inr (o, e) ↦ elim (skip-cases d.action) [
      | inl skipped ↦ inl (ground arith)
      | inr acted ↦ inr (inl (o, ground arith))
    ]
  ]

  pub execute_case-cases :
      (inp : Inputs Response) (s : CaseStore Observation)
      → ((n : Option ℕ) × (message : String) × (execute_case w inp s
            ≡ fail_case inp.now n message s))
        ⊎ ((d : RecoveryDecision Observation) × (decide w inp.now s ≡ some d)
            × (execute_case w inp s ≡ follow w inp s d))
  unfolding execute_case
  execute_case-cases inp s = elim (Option-cases (decide w inp.now s)) [
    | inl e ↦ inl (none, "recovery failed", ground arith)
    | inr (d, e) ↦ inr (d, e, ground arith)
  ]

  -- One execution is a sequence of the executor's transactions and calls, whatever it meets.
  pub execute_case-Commits :
      (inp : Inputs Response) (s : CaseStore Observation)
      → Commits Response s (execute_case w inp s)
  execute_case-Commits inp s = elim (execute_case-cases inp s) [
    | inl (n, message, e) ↦ rw e (then none_yet (fail inp.now n message s))
    | inr (d, _, e) ↦ rw e (elim (follow-cases inp s d) [
      | inl same ↦ rw same none_yet
      | inr (inl (o, adopted)) ↦ rw adopted (adopt-Commits inp.now _ o s)
      | inr (inr anew) ↦ rw anew (attempt_anew-Commits inp s)
    ])
  ]

  -- One execution of a consistent case leaves it consistent, whatever it meets: a case that is
  -- COMPLETE has an observation, and every observation belongs to one of its attempts.
  pub execute_case-IsConsistent :
      (inp : Inputs Response) (s : CaseStore Observation)
      → IsConsistent s
      → IsConsistent (execute_case w inp s)
  execute_case-IsConsistent inp s h = Commits-IsConsistent h (execute_case-Commits inp s)
