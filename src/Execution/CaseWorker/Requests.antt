-- ===== src/Execution/CaseWorker/Requests.antt =====
-- When the resilient worker (src/rag_eval/execution/worker.py) sends a request.
use rag_eval.Prelude.{◌≡◌, ◌≢◌, ◌⊎◌, inl, inr, true, false, Option, none, some, length, refl, arith}
use rag_eval.Execution.Circuit.{CircuitBreaker}
use rag_eval.Execution.Store.{CaseExecutionStatus, Attempt, CaseStore, latest_attempt}
use rag_eval.Execution.Store.Laws.{length-update_attempt}
use rag_eval.Execution.Recovery.{
  RecoveryAction, RecoveryDecision, reuse_observation, renormalize_raw, recover_request,
  idempotent_replay, execute_new, skip, mark_unknown, decide_recovery, execute_recovery,
}
use rag_eval.Execution.Recovery.Laws.{
  HasResult, Lost, execute_new_iff, replay_needs_idempotency, uncertain_mark_unknown,
  decide_recovery-found,
}
use rag_eval.Execution.CaseWorker.{
  WorkerWorld, CaseRun, result, worker_sources, repair_target_complete_state,
  persist_recovered_observation, mark_case_unknown, execute_with_recovery, execute_worker,
  leave_unknown, after_lookup, look_up, reuse, renormalized, repaired_attempt,
}

module _ {Response Observation : Type 0} (w : WorkerWorld Response Observation) where
  -- The decision that the worker follows.
  abbrev pub decision : CaseStore Observation → RecoveryDecision Observation
  decision s =
      decide_recovery (worker_sources w s) w.staleness_threshold w.now s.status
        (latest_attempt s.attempts)

  -- The decisions on which a request may go out.
  abbrev Sends : RecoveryDecision Observation → Type 0
  Sends d =
      (d.action ≡ execute_new)
      ⊎ ((d.action ≡ idempotent_replay) ⊎ (d.fallback_action ≡ some idempotent_replay))

  after_lookup-Sends :
      (a : Attempt) (fallback : Option RecoveryAction) (found : Option (Option Observation))
      (s : CaseStore Observation) (b : CircuitBreaker)
      → (after_lookup w a fallback found s b).1.calls ≢ s.calls
      → fallback ≡ some idempotent_replay
  unfolding after_lookup persist_recovered_observation mark_case_unknown
  after_lookup-Sends a fallback none s b h = absurd (h refl)
  after_lookup-Sends a fallback (some (some o)) s b h = absurd (h refl)
  after_lookup-Sends a (some idempotent_replay) (some none) s b h = refl
  after_lookup-Sends a _ (some none) s b h = absurd (h refl)

  look_up-Sends :
      (d : RecoveryDecision Observation) (latest : Option Attempt) (s : CaseStore Observation)
      (b : CircuitBreaker)
      → (look_up w d latest s b).1.calls ≢ s.calls
      → d.fallback_action ≡ some idempotent_replay
  unfolding look_up mark_case_unknown
  look_up-Sends d none s b h = absurd (h refl)
  look_up-Sends d (some a) s b h =
      after_lookup-Sends a d.fallback_action (execute_recovery (worker_sources w s) d (some a)) s b
        h

  reuse-calls :
      (latest : Option Attempt) (o : Option Observation) (s : CaseStore Observation)
      (b : CircuitBreaker)
      → (reuse w latest o s b).1.calls ≡ s.calls
  unfolding reuse repair_target_complete_state
  reuse-calls latest none s b = refl
  reuse-calls latest (some o) s b = refl

  renormalized-calls :
      (latest : Option Attempt) (o : Option Observation) (s : CaseStore Observation)
      (b : CircuitBreaker)
      → (renormalized w latest o s b).1.calls ≡ s.calls
  unfolding renormalized persist_recovered_observation
  renormalized-calls latest none s b = refl
  renormalized-calls none (some o) s b = refl
  renormalized-calls (some a) (some o) s b = refl

  follow-Sends :
      (action : RecoveryAction) (d : RecoveryDecision Observation) (latest : Option Attempt)
      (s : CaseStore Observation) (b : CircuitBreaker)
      → d.action ≡ action
      → (execute_with_recovery w d latest s b).1.calls ≢ s.calls
      → Sends d
  unfolding execute_with_recovery mark_case_unknown
  follow-Sends execute_new d latest s b e h = inl e
  follow-Sends idempotent_replay d latest s b e h = inr (inl e)
  follow-Sends recover_request d latest s b e h =
      inr (inr (look_up-Sends d latest s b (rw (e, execute_with_recovery) at h)))
  follow-Sends reuse_observation d latest s b e h =
      absurd (ground (arith, reuse-calls latest d.observation s b))
  follow-Sends renormalize_raw d latest s b e h =
      absurd (ground (arith, renormalized-calls latest d.observation s b))
  follow-Sends skip d latest s b e h = absurd (ground arith)
  follow-Sends mark_unknown d latest s b e h = absurd (ground arith)

  -- The worker sends a request only for one of two reasons. Either the case is pending or its retry
  -- is pending, and its latest attempt, if there is one, has left no durable result; or there is an
  -- attempt, and the target promises idempotency.
  pub request_needs_reason :
      (s : CaseStore Observation) (b : CircuitBreaker)
      → (execute_worker w s b).1.calls ≢ s.calls
      → (((s.status ≡ CaseExecutionStatus.pending) ⊎ (s.status ≡ CaseExecutionStatus.retry_pending))
          × Lost (worker_sources w s) (latest_attempt s.attempts))
        ⊎ ((w.env.idempotency ≡ true) × (latest_attempt s.attempts ≢ none))
  unfolding execute_worker
  request_needs_reason s b h =
      let src = worker_sources w s in
      let latest = latest_attempt s.attempts in
      elim (follow-Sends (decision s).action (decision s) latest s b refl h) [
        | inl new ↦ inl ((execute_new_iff src w.staleness_threshold w.now s.status latest).0 new)
        | inr replays ↦
            inr (replay_needs_idempotency src w.staleness_threshold w.now s.status latest replays)
      ]

  -- An uncertain outcome is left alone, as the executor does not: for a case whose outcome is unknown
  -- or interrupted, whose latest attempt has left no result, on a target with neither request
  -- recovery nor idempotency, the worker only sets the case UNKNOWN and reports no success.
  pub uncertain_left_alone :
      (s : CaseStore Observation) (b : CircuitBreaker) (a : Attempt)
      → (s.status ≡ CaseExecutionStatus.unknown) ⊎ (s.status ≡ CaseExecutionStatus.interrupted)
      → latest_attempt s.attempts ≡ some a
      → Lost (worker_sources w s) (some a)
      → w.request_recovery ≡ false
      → w.env.idempotency ≡ false
      → execute_worker w s b ≡ (result false none a.attempt_number, mark_case_unknown s, b)
  unfolding execute_worker execute_with_recovery leave_unknown
  uncertain_left_alone s b a u l lost recover idem =
      let d =
        uncertain_mark_unknown (worker_sources w s) w.staleness_threshold w.now s.status a u lost
          recover idem in
      rw (l, execute_worker) (rw (d, execute_worker) refl)

  -- The same calls, as many attempts and the same breaker.
  abbrev pub Kept : CaseStore Observation → CircuitBreaker → CaseRun Observation → Type 0
  Kept s b r = (r.1.calls ≡ s.calls) × (length r.1.attempts ≡ length s.attempts) × (r.2 ≡ b)

  follow-skip :
      (d : RecoveryDecision Observation) (a : Attempt) (s : CaseStore Observation)
      (b : CircuitBreaker)
      → d.action ≡ skip
      → Kept s b (execute_with_recovery w d (some a) s b)
  unfolding execute_with_recovery
  follow-skip d a s b e = ground arith

  follow-found :
      (d : RecoveryDecision Observation) (a : Attempt) (o : Observation) (s : CaseStore Observation)
      (b : CircuitBreaker)
      → d.observation ≡ some o
      → (d.action ≡ reuse_observation) ⊎ (d.action ≡ renormalize_raw)
      → Kept s b (execute_with_recovery w d (some a) s b)
        × ((execute_with_recovery w d (some a) s b).1.status ≡ CaseExecutionStatus.target_complete)
  unfolding execute_with_recovery reuse renormalized persist_recovered_observation
      repair_target_complete_state
  follow-found d a o s b found (inl e) =
      ground (arith, length-update_attempt a.attempt_number (repaired_attempt w.now) s.attempts)
  follow-found d a o s b found (inr e) =
      ground (arith, length-update_attempt a.attempt_number (repaired_attempt w.now) s.attempts)

  -- As long as the latest attempt has a durable result, the worker sends nothing to the target,
  -- records no new attempt and leaves the circuit breaker alone; a case that is not complete becomes
  -- TARGET_COMPLETE.
  pub worker_keeps_durable_result :
      (s : CaseStore Observation) (b : CircuitBreaker) (a : Attempt)
      → latest_attempt s.attempts ≡ some a
      → HasResult (worker_sources w s) a
      → Kept s b (execute_worker w s b)
        × ((s.status ≡ CaseExecutionStatus.complete)
            ⊎ ((execute_worker w s b).1.status ≡ CaseExecutionStatus.target_complete))
  unfolding execute_worker
  worker_keeps_durable_result s b a l h =
      let src = worker_sources w s in
      let d = decide_recovery src w.staleness_threshold w.now s.status (some a) in
      elim (decide_recovery-found src w.staleness_threshold w.now s.status a h) [
        | inl (c, skipped) ↦ rw (l, execute_worker) (follow-skip d a s b skipped, inl c)
        | inr (o, e, kind) ↦
            let (kept, status) = follow-found d a o s b e kind in
            rw (l, execute_worker) (kept, inr status)
      ]
