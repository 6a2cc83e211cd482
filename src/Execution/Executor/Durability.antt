-- ===== src/Execution/Executor/Durability.antt =====
-- Durable results and the target (`_execute_case` of src/rag_eval/execution/engine.py): when a
-- request is not repeated, and when it is.
use rag_eval.Prelude.{
  ℕ, ◌+◌, ◌≡◌, ◌≢◌, ◌⊎◌, inl, inr, true, false, some, [], ◌∷◌, ◌++◌, length, ap, ◌∙◌, arith,
}
use rag_eval.Execution.Store.{pending, unknown, interrupted, Attempt, CaseStore, latest_attempt}
use rag_eval.Execution.Store.Laws.{latest_attempt-append, update_attempt-append}
use rag_eval.Execution.Recovery.{
  RecoveryAction, RecoveryDecision, decided, mark_unknown, recover_request, RawDocument, found,
  parse_raw_response, try_renormalize, renormalize_attempt, decide_recovery,
}
use rag_eval.Execution.Recovery.Laws.{
  HasResult, Lost, uncertain_mark_unknown, decide_recovery-found,
}
use rag_eval.Execution.Transactions.{
  Inputs, attach_response, new_attempt, next_attempt_number, persist_raw_response, contact_target,
  register_attempt, registered,
}
use rag_eval.Execution.Executor.{
  World, attempt_anew, decide, follow, execute_case, sources_of, staleness_threshold,
}
use rag_eval.Execution.Executor.Calls.{Quiet, adopt-Quiet, attempt_anew-calls}

module _ {Response Observation : Type 0} (w : World Response Observation) where
  decide-found :
      (now : ℕ) (s : CaseStore Observation) (d : RecoveryDecision Observation)
      → decide_recovery
          (sources_of w s)
          staleness_threshold
          now
          s.status
          (latest_attempt s.attempts)
        ≡ d
      → d.action ≢ recover_request
      → decide w now s ≡ some d
  unfolding decide
  decide-found now s d e h = ground arith

  follow-found :
      (inp : Inputs Response) (s : CaseStore Observation) (d : RecoveryDecision Observation)
      → (d.action ≡ RecoveryAction.skip) ⊎ ((o : Observation) × (d.observation ≡ some o))
      → Quiet s (follow w inp s d)
  unfolding follow
  follow-found inp s d (inl e) = ground arith
  follow-found inp s d (inr (o, e)) =
      ground (arith, adopt-Quiet w inp.now (latest_attempt s.attempts) o s)

  execute_case-found :
      (inp : Inputs Response) (s : CaseStore Observation) (d : RecoveryDecision Observation)
      → decide w inp.now s ≡ some d
      → execute_case w inp s ≡ follow w inp s d
  unfolding execute_case
  execute_case-found inp s d e = ground arith

  -- As long as the latest attempt has a durable result, be it an observation or a raw response that
  -- renormalizes, executing the case sends nothing to the target and records no new attempt,
  -- whatever the case's status and whatever becomes of the scoring.
  pub durable_result_is_kept :
      (inp : Inputs Response) (s : CaseStore Observation) (a : Attempt)
      → latest_attempt s.attempts ≡ some a
      → HasResult (sources_of w s) a
      → Quiet s (execute_case w inp s)
  durable_result_is_kept inp s a l h =
      let src = sources_of w s in
      let d = decide_recovery src staleness_threshold inp.now s.status (some a) in
      let at_latest = ap (decide_recovery src staleness_threshold inp.now s.status) l in
      elim (decide_recovery-found src staleness_threshold inp.now s.status a h) [
        | inl (c, skipped) ↦
            let e = decide-found inp.now s d at_latest (ground arith) in
            rw (execute_case-found inp s d e) (follow-found inp s d (inl skipped))
        | inr (o, e, kind) ↦
            let e' = decide-found inp.now s d at_latest (ground arith) in
            rw (execute_case-found inp s d e') (follow-found inp s d (inr (o, e)))
      ]

-- The state that a crash leaves right after the transaction that stores the raw response: the case
-- was registered, the target called, and its response stored.
abbrev pub stored_response :
    {Response Observation : Type 0}
    → Inputs Response
    → ℕ
    → CaseStore Observation
    → CaseStore Observation
stored_response inp n s = persist_raw_response n inp.response_artifact_id (contact_target s)

module _ {Response Observation : Type 0} where
  register_attempt-attempts :
      (inp : Inputs Response) (n : ℕ) (s t : CaseStore Observation)
      → register_attempt inp n s ≡ registered t
      → (t.attempts ≡ s.attempts ++ new_attempt inp n ∷ [])
        × (s.status ≡ pending)
        × (t.observations ≡ s.observations)
        × (t.errors ≡ s.errors)
  unfolding register_attempt
  register_attempt-attempts inp n s t e = ground arith

  stored-latest :
      (inp : Inputs Response) (s t : CaseStore Observation)
      → register_attempt inp (next_attempt_number s) s ≡ registered t
      → latest_attempt (stored_response inp (next_attempt_number s) t).attempts
        ≡ some (attach_response inp.response_artifact_id (new_attempt inp (next_attempt_number s)))
  unfolding persist_raw_response contact_target next_attempt_number
  stored-latest inp s t e =
      let n = next_attempt_number s in
      let a = new_attempt inp n in
      let (rows, _, _, _) = register_attempt-attempts inp n s t e in
      rw rows (
        rw
          (update_attempt-append s.attempts a (attach_response inp.response_artifact_id)
            (omega arith))
          (latest_attempt-append s.attempts (attach_response inp.response_artifact_id a)
            (omega arith)))

module _ {Response Observation : Type 0} (w : World Response Observation) where
  renormalizes :
      (inp : Inputs Response) (n : ℕ) (s : CaseStore Observation) (d : RawDocument Response)
      (r : Response) (o : Observation)
      → w.fetch inp.response_artifact_id ≡ found d
      → d.is_object ≡ true
      → parse_raw_response d ≡ some r
      → w.normalize r inp.fresh_request_id ≡ some o
      → HasResult (sources_of w s) (attach_response inp.response_artifact_id (new_attempt inp n))
  unfolding renormalize_attempt try_renormalize attach_response
  renormalizes inp n s d r o f obj p norm = inr (o, ground arith)

  -- After a crash behind the stored response, executing the case again does not repeat the request,
  -- and records no new attempt: it suffices that the artifact reads back as an object that parses
  -- and normalizes.
  pub crash_after_response :
      (inp again : Inputs Response) (s t : CaseStore Observation) (d : RawDocument Response)
      (r : Response) (o : Observation)
      → register_attempt inp (next_attempt_number s) s ≡ registered t
      → w.fetch inp.response_artifact_id ≡ found d
      → d.is_object ≡ true
      → parse_raw_response d ≡ some r
      → w.normalize r inp.fresh_request_id ≡ some o
      → Quiet
          (stored_response inp (next_attempt_number s) t)
          (execute_case w again (stored_response inp (next_attempt_number s) t))
  crash_after_response inp again s t d r o e f obj p norm =
      let n = next_attempt_number s in
      durable_result_is_kept w again (stored_response inp n t)
        (attach_response inp.response_artifact_id (new_attempt inp n)) (stored-latest inp s t e)
        (renormalizes inp n (stored_response inp n t) d r o f obj p norm)

  -- The executor does not honour the decision to leave an uncertain outcome alone: for a case whose
  -- outcome is unknown or interrupted, whose latest attempt has left no result, on a target with
  -- neither request recovery nor idempotency, recovery decides MARK_UNKNOWN, and the executor sends
  -- a second request under a new attempt all the same.
  pub mark_unknown_repeats :
      (inp : Inputs Response) (s : CaseStore Observation) (a : Attempt)
      → (s.status ≡ unknown) ⊎ (s.status ≡ interrupted)
      → latest_attempt s.attempts ≡ some a
      → Lost (sources_of w s) (some a)
      → w.capabilities.request_recovery ≡ false
      → w.capabilities.idempotency ≡ false
      → ((decide_recovery (sources_of w s) staleness_threshold inp.now s.status (some a)).action
          ≡ mark_unknown)
        × ((execute_case w inp s).calls ≡ s.calls + 1)
        × (length (execute_case w inp s).attempts ≡ length s.attempts + 1)
  unfolding follow attempt_anew
  mark_unknown_repeats inp s a u l lost recover idem =
      let src = sources_of w s in
      let d : RecoveryDecision Observation = decided mark_unknown in
      let left_alone =
        uncertain_mark_unknown src staleness_threshold inp.now s.status a u lost recover idem in
      let at_latest = ap (decide_recovery src staleness_threshold inp.now s.status) l in
      let e = decide-found w inp.now s d (at_latest ∙ left_alone) (ground arith) in
      (
        ap (λ x. x.action) left_alone,
        rw (execute_case-found w inp s d e) (attempt_anew-calls w inp s (ground arith)).0,
        rw (execute_case-found w inp s d e) (attempt_anew-calls w inp s (ground arith)).1,
      )
