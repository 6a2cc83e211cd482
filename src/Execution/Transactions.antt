-- ===== src/Execution/Transactions.antt =====
-- The transactions of the benchmark executor on one case: src/rag_eval/execution/engine.py.
--
-- A transaction is a function of the durable state; `async with session.begin()` commits all of it
-- or, when something in it raises, nothing. The database itself does not fail here. What one
-- execution meets from outside stands in `Inputs`: the clock (one reading for the whole execution),
-- the fresh request id, the hash of the canonical request, the id of the stored raw response, and
-- how the target's call ends.
use rag_eval.Prelude.{
  ℕ, ◌+◌, Bool, true, false, Option, none, some, String, List, [], ◌∷◌, ◌++◌, if◌then◌else◌,
}
use rag_eval.Execution.Store.{
  pending, running, complete, failed, AttemptStatus, response_received, permanent_failure, Attempt,
  CaseStore, get_attempt, update_attempt, highest, get_observation, has_error,
}

-- How a call of the target ends: with a response, or with an exception and its text. A timeout of
-- `total_timeout` is an exception.
pub data Outcome (Response : Type 0) : Type 0 where
  returned : Response → Outcome Response
  raised : String → Outcome Response

pub record Inputs (Response : Type 0) : Type 0 where
  pub now : ℕ
  pub fresh_request_id : String
  pub canonical_hash : String
  pub attempt_key : ℕ → String
  pub response_artifact_id : String
  pub outcome : Outcome Response

-- The row that `_register_attempt` adds; `updated_at` has the time as its server default.
abbrev pub new_attempt : {Response : Type 0} → Inputs Response → ℕ → Attempt
new_attempt inp n = record {
  attempt_number = n;
  request_id = inp.fresh_request_id;
  idempotency_key = some (inp.attempt_key n);
  canonical_request_hash = some inp.canonical_hash;
  status = AttemptStatus.running;
  started_at = some inp.now;
  updated_at = some inp.now;
  finished_at = none;
  retryable = none;
  error_summary = none;
  raw_response_artifact_id = none;
}

-- How `_register_attempt` ends: with its early return, for a case that is not pending; with an
-- exception, for an attempt that exists; or with the state that it commits.
pub data Registration (Observation : Type 0) : Type 0 where
  not_pending duplicate : Registration Observation
  registered : CaseStore Observation → Registration Observation

-- The row of an attempt that `_persist_raw_response` writes, in the execution that has registered it:
-- its `updated_at` is that of the registration, since an execution has one reading of the clock.
unfoldable pub attach_response : String → Attempt → Attempt
attach_response artifact_id a = record a { raw_response_artifact_id = some artifact_id }

-- The row of an attempt that `_complete_case_execution` writes.
unfoldable pub completed_attempt : ℕ → Attempt → Attempt
completed_attempt now a = record a {
  status = response_received;
  finished_at = some now;
  updated_at = some now;
}

-- The row of an attempt that `_fail_case_execution` writes.
unfoldable pub failed_attempt : ℕ → String → Attempt → Attempt
failed_attempt now message a = record a {
  status = permanent_failure;
  finished_at = some now;
  updated_at = some now;
  retryable = some false;
  error_summary = some message;
}

module _ {Observation : Type 0} where
  -- `_reset_case_for_new_attempt`
  unfoldable pub reset_case : CaseStore Observation → CaseStore Observation
  reset_case s = elim s.status [
    | pending ↦ s
    | complete ↦ s
    | _ ↦ record s { status = pending; finished_at = none }
  ]

  -- `_next_attempt_id`
  unfoldable pub next_attempt_number : CaseStore Observation → ℕ
  next_attempt_number s = highest s.attempts + 1

  -- `_fail_case_execution`; the attempt is the one of the number, if it exists. The error's primary
  -- key is made from the attempt's id, so that a second failure of one attempt cannot be inserted:
  -- the transaction raises, and nothing of it is committed.
  unfoldable pub fail_case : ℕ → Option ℕ → String → CaseStore Observation → CaseStore Observation
  unfolding failed_attempt
  fail_case now attempt message s = if has_error attempt s.errors then s else (record s {
    status = failed;
    finished_at = some now;
    errors = (attempt, message) ∷ s.errors;
    attempts = elim attempt [
      | none ↦ s.attempts
      | some n ↦ update_attempt n (failed_attempt now message) s.attempts
    ];
  })

  -- The observation is persisted unless the attempt has one.
  unfoldable pub insert_observation :
      ℕ → Observation → List (ℕ × Observation) → List (ℕ × Observation)
  insert_observation n o os = elim (get_observation n os) [ none ↦ (n, o) ∷ os | some old ↦ os ]

  -- The state that `_complete_case_execution` commits.
  unfoldable pub completed_state :
      ℕ → ℕ → Observation → CaseStore Observation → CaseStore Observation
  unfolding completed_attempt insert_observation
  completed_state now n o s = record s {
    status = complete;
    finished_at = some now;
    observations = insert_observation n o s.observations;
    attempts = update_attempt n (completed_attempt now) s.attempts;
  }

  -- `_complete_case_execution`; where the scorer or the missing attempt raises, nothing is
  -- committed.
  unfoldable pub complete_case :
      Option (Observation → Bool)
      → ℕ
      → ℕ
      → Observation
      → CaseStore Observation
      → Option (CaseStore Observation)
  complete_case score now n o s =
      if (elim score [ none ↦ true | some f ↦ f o ])
      then elim (get_attempt n s.attempts) [
        | none ↦ none
        | some a ↦ some (completed_state now n o s)
      ]
      else none

  -- `_persist_raw_response`. It raises for an attempt that does not exist; the executor calls it only
  -- for the attempt that it has just registered.
  unfoldable pub persist_raw_response : ℕ → String → CaseStore Observation → CaseStore Observation
  unfolding attach_response
  persist_raw_response n artifact_id s = record s {
    attempts = update_attempt n (attach_response artifact_id) s.attempts;
  }

  -- The call of the target, which no transaction surrounds.
  unfoldable pub contact_target : CaseStore Observation → CaseStore Observation
  contact_target s = record s { calls = s.calls + 1 }

module _ {Response Observation : Type 0} where
  -- `_register_attempt`
  unfoldable pub register_attempt :
      Inputs Response → ℕ → CaseStore Observation → Registration Observation
  register_attempt inp n s = elim s.status [
    | pending ↦ elim (get_attempt n s.attempts) [
      | some old ↦ duplicate
      | none ↦ registered (record s {
        status = running;
        started_at = some inp.now;
        finished_at = none;
        attempts = s.attempts ++ new_attempt inp n ∷ [];
      })
    ]
    | _ ↦ not_pending
  ]
