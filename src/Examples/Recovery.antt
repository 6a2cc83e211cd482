-- ===== src/Examples/Recovery.antt =====
-- Decisions of the recovery service of src/rag_eval/execution/recovery.py.
use rag_eval.Prelude.{◌≡◌, ◌⊎◌, ◌↔◌, true, none, some, String, refl}
use rag_eval.Execution.Store.{CaseExecutionStatus, AttemptStatus, Attempt}
use rag_eval.Execution.Recovery.{
  Sources, missing, execute_new, recover_request, idempotent_replay, decide_recovery,
}
use rag_eval.Execution.Recovery.Laws.{Lost, execute_new_iff}

-- An attempt whose outcome is not known.
abbrev pub lost_attempt : Attempt
lost_attempt = record {
  attempt_number = 1;
  request_id = "request-1";
  idempotency_key = some "key-1";
  canonical_request_hash = some "hash-1";
  status = AttemptStatus.running;
  started_at = some 1000;
  updated_at = some 1000;
  finished_at = none;
  retryable = none;
  error_summary = none;
  raw_response_artifact_id = none;
}

-- A target that promises both capabilities, and nothing stored.
abbrev nothing_stored : Sources String String
nothing_stored = record {
  find_observation = λ n. none;
  fetch = λ id. missing;
  normalize = λ r id. some r;
  recover = λ id. none;
  capabilities = record { idempotency = true; request_recovery = true };
}

abbrev status : CaseExecutionStatus
status = CaseExecutionStatus.unknown

looked_up :
    (decide_recovery nothing_stored 300000 2000 status (some lost_attempt)).action ≡ recover_request
unfolding decide_recovery
looked_up = refl

falls_back :
    (decide_recovery nothing_stored 300000 2000 status (some lost_attempt)).fallback_action
    ≡ some idempotent_replay
unfolding decide_recovery
falls_back = refl

execute_new_iff_example :
    ((decide_recovery nothing_stored 300000 2000 CaseExecutionStatus.retry_pending
        (some lost_attempt)).action
      ≡ execute_new)
    ↔ (((CaseExecutionStatus.retry_pending ≡ CaseExecutionStatus.pending)
          ⊎ (CaseExecutionStatus.retry_pending ≡ CaseExecutionStatus.retry_pending))
        × Lost nothing_stored (some lost_attempt))
execute_new_iff_example =
    execute_new_iff nothing_stored 300000 2000 CaseExecutionStatus.retry_pending (some lost_attempt)
