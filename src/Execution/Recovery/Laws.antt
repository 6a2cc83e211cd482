-- ===== src/Execution/Recovery/Laws.antt =====
-- What `decide_recovery` of src/rag_eval/execution/recovery.py decides, and when the target is
-- contacted.
use rag_eval.Prelude.{
  ℕ, ◌≡◌, ◌≢◌, ◌⊎◌, ◌↔◌, inl, inr, true, false, Option, none, some, refl, ◌∙◌, arith, Option-cases,
}
use rag_eval.Execution.Store.{CaseExecutionStatus, Attempt}
use rag_eval.Execution.Recovery.{
  RecoveryAction, RecoveryDecision, Sources, reuse_observation, renormalize_raw, recover_request,
  idempotent_replay, execute_new, skip, mark_unknown, decide_by_status, or_durable, decide_recovery,
  decided, renormalize_attempt,
}

-- The actions on which something is sent to the target.
abbrev pub Contacts : RecoveryAction → Type 0
Contacts a = (a ≡ recover_request) ⊎ (a ≡ idempotent_replay) ⊎ (a ≡ execute_new)

module _ {Response Observation : Type 0} (src : Sources Response Observation) where
  or_durable-contact :
      (a : Attempt) (rest : RecoveryDecision Observation)
      → Contacts (or_durable src (some a) rest).action
      → (src.find_observation a.attempt_number ≡ none)
        × (renormalize_attempt src a a.raw_response_artifact_id ≡ none)
  unfolding or_durable
  or_durable-contact a rest h = ground arith

  -- Where there is a latest attempt, the target is contacted only if it has left no durable
  -- result: no observation, and no raw response that can be renormalized.
  pub contact_needs_loss :
      (threshold now : ℕ) (status : CaseExecutionStatus) (a : Attempt)
      → Contacts (decide_recovery src threshold now status (some a)).action
      → (src.find_observation a.attempt_number ≡ none)
        × (renormalize_attempt src a a.raw_response_artifact_id ≡ none)
  unfolding decide_recovery
  contact_needs_loss threshold now CaseExecutionStatus.complete a h = ground arith
  contact_needs_loss threshold now status a h = or_durable-contact a _ h

  replay_by_status :
      (threshold now : ℕ) (status : CaseExecutionStatus) (latest : Option Attempt)
      → let d : RecoveryDecision Observation =
          decide_by_status src.capabilities threshold now latest status in
        ((d.action ≡ idempotent_replay) ⊎ (d.fallback_action ≡ some idempotent_replay)
          → (src.capabilities.idempotency ≡ true) × (latest ≢ none))
        × (d.action ≡ recover_request
            → (src.capabilities.request_recovery ≡ true) × (latest ≢ none))
  unfolding decide_by_status
  replay_by_status threshold now CaseExecutionStatus.complete latest = ground arith
  replay_by_status threshold now _ latest = ground arith

  or_durable-replay :
      (latest : Option Attempt) (rest : RecoveryDecision Observation) (a : RecoveryAction)
      → Contacts a
      → ((or_durable src latest rest).action ≡ a → rest.action ≡ a)
        × ((or_durable src latest rest).fallback_action ≡ some a → rest.fallback_action ≡ some a)
  unfolding or_durable
  or_durable-replay latest rest a c = ground arith

  capabilities_needed :
      (threshold now : ℕ) (status : CaseExecutionStatus) (latest : Option Attempt)
      → let d = decide_recovery src threshold now status latest in
        ((d.action ≡ idempotent_replay) ⊎ (d.fallback_action ≡ some idempotent_replay)
          → (src.capabilities.idempotency ≡ true) × (latest ≢ none))
        × (d.action ≡ recover_request
            → (src.capabilities.request_recovery ≡ true) × (latest ≢ none))
  unfolding decide_recovery
  capabilities_needed threshold now CaseExecutionStatus.complete latest = ground arith
  capabilities_needed threshold now status latest =
      let rest : RecoveryDecision Observation =
        decide_by_status src.capabilities threshold now latest status in
      ground (
        arith,
        replay_by_status threshold now status latest,
        or_durable-replay latest rest idempotent_replay (inr (inl refl)),
        or_durable-replay latest rest recover_request (inl refl),
      )

  -- A replay is decided, also as the fallback of a lookup, only on a target that promises
  -- idempotency, and only where there is an attempt to replay.
  pub replay_needs_idempotency :
      (threshold now : ℕ) (status : CaseExecutionStatus) (latest : Option Attempt)
      → ((decide_recovery src threshold now status latest).action ≡ idempotent_replay)
        ⊎ ((decide_recovery src threshold now status latest).fallback_action
            ≡ some idempotent_replay)
      → (src.capabilities.idempotency ≡ true) × (latest ≢ none)
  replay_needs_idempotency threshold now status latest h =
      (capabilities_needed threshold now status latest).0 h

  -- A lookup by request id is decided only on a target that promises request recovery, and only
  -- where there is an attempt to look up.
  pub lookup_needs_recovery :
      (threshold now : ℕ) (status : CaseExecutionStatus) (latest : Option Attempt)
      → (decide_recovery src threshold now status latest).action ≡ recover_request
      → (src.capabilities.request_recovery ≡ true) × (latest ≢ none)
  lookup_needs_recovery threshold now status latest h =
      (capabilities_needed threshold now status latest).1 h

  -- The latest attempt, if there is one, has left no durable result.
  abbrev pub Lost : Option Attempt → Type 0
  Lost none = Unit
  Lost (some a) =
      (src.find_observation a.attempt_number ≡ none)
      × (renormalize_attempt src a a.raw_response_artifact_id ≡ none)

  pub or_durable-Lost :
      (latest : Option Attempt) (rest : RecoveryDecision Observation)
      → Lost latest
      → or_durable src latest rest ≡ rest
  unfolding or_durable
  or_durable-Lost none rest h = refl
  or_durable-Lost (some a) rest h = ground arith

  or_durable-execute_new :
      (latest : Option Attempt) (rest : RecoveryDecision Observation)
      → (or_durable src latest rest).action ≡ execute_new
      → Lost latest × (rest.action ≡ execute_new)
  unfolding or_durable
  or_durable-execute_new none rest h = (tt, h)
  or_durable-execute_new (some a) rest h = ground arith

  by_status_iff :
      (threshold now : ℕ) (status : CaseExecutionStatus) (latest : Option Attempt)
      → let d : RecoveryDecision Observation =
          decide_by_status src.capabilities threshold now latest status in
        (d.action ≡ execute_new)
        ↔ ((status ≡ CaseExecutionStatus.pending) ⊎ (status ≡ CaseExecutionStatus.retry_pending))
  unfolding decide_by_status
  by_status_iff threshold now CaseExecutionStatus.complete latest = ground arith
  by_status_iff threshold now _ latest = ground arith

  -- A fresh execution is decided exactly for a case that is pending or whose retry is pending, and
  -- whose latest attempt, if there is one, has left no durable result.
  pub execute_new_iff :
      (threshold now : ℕ) (status : CaseExecutionStatus) (latest : Option Attempt)
      → ((decide_recovery src threshold now status latest).action ≡ execute_new) ↔ (
          ((status ≡ CaseExecutionStatus.pending) ⊎ (status ≡ CaseExecutionStatus.retry_pending))
          × Lost latest)
  unfolding decide_recovery
  execute_new_iff threshold now CaseExecutionStatus.complete latest = ground arith
  execute_new_iff threshold now status latest =
      let rest : RecoveryDecision Observation =
        decide_by_status src.capabilities threshold now latest status in
      let iff = by_status_iff threshold now status latest in
      (
        λ h. let (lost, new) = or_durable-execute_new latest rest h in (iff.0 new, lost),
        λ (s, lost). rw (or_durable-Lost latest rest lost) (iff.1 s),
      )

  -- The durable result of an attempt, in the order in which recovery looks for it.
  abbrev pub HasResult : Attempt → Type 0
  HasResult a =
      ((o : Observation) × (src.find_observation a.attempt_number ≡ some o))
      ⊎ ((o : Observation) × (renormalize_attempt src a a.raw_response_artifact_id ≡ some o))

  or_durable-found :
      (a : Attempt) (rest : RecoveryDecision Observation)
      → HasResult a
      → (o : Observation) × ((or_durable src (some a) rest).observation ≡ some o)
        × (((or_durable src (some a) rest).action ≡ reuse_observation)
            ⊎ ((or_durable src (some a) rest).action ≡ renormalize_raw))
  unfolding or_durable
  or_durable-found a rest (inl (o, e)) = (o, ground arith, ground arith)
  or_durable-found a rest (inr (o, e)) =
      elim (Option-cases (src.find_observation a.attempt_number)) [
        | inl none_found ↦ (o, ground arith, ground arith)
        | inr (o', e') ↦ (o', ground arith, ground arith)
      ]

  -- Whatever the status, a durable result of the latest attempt is reused, unless the case is
  -- already complete and skipped.
  pub decide_recovery-found :
      (threshold now : ℕ) (status : CaseExecutionStatus) (a : Attempt)
      → HasResult a
      → let d = decide_recovery src threshold now status (some a) in
        ((status ≡ CaseExecutionStatus.complete) × (d.action ≡ skip))
        ⊎ ((o : Observation) × (d.observation ≡ some o)
            × ((d.action ≡ reuse_observation) ⊎ (d.action ≡ renormalize_raw)))
  unfolding decide_recovery
  decide_recovery-found threshold now CaseExecutionStatus.complete a h = inl (refl, refl)
  decide_recovery-found threshold now status a h = inr (or_durable-found a _ h)

  -- With neither request recovery nor idempotency an uncertain outcome without a durable result is
  -- left alone.
  pub uncertain_mark_unknown :
      (threshold now : ℕ) (status : CaseExecutionStatus) (a : Attempt)
      → (status ≡ CaseExecutionStatus.unknown) ⊎ (status ≡ CaseExecutionStatus.interrupted)
      → Lost (some a)
      → src.capabilities.request_recovery ≡ false
      → src.capabilities.idempotency ≡ false
      → decide_recovery src threshold now status (some a) ≡ decided mark_unknown
  unfolding decide_recovery
  uncertain_mark_unknown threshold now status a (inl u) lost r i =
      rw u (or_durable-Lost (some a) _ lost ∙ ground arith)
  uncertain_mark_unknown threshold now status a (inr u) lost r i =
      rw u (or_durable-Lost (some a) _ lost ∙ ground arith)
