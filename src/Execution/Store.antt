-- ===== src/Execution/Store.antt =====
-- The durable state of one logical case: its row, its attempts, its observations and its errors, as
-- src/rag_eval/db/test_models.py and src/rag_eval/models/enums.py declare them and
-- src/rag_eval/db/test_repository.py writes them. One case execution is fixed, so that the attempt
-- id `attempt-<case>-<n>` is the number n, and an error's primary key is the number of its attempt,
-- or `none` for the placeholder that stands before there is one. Times are whole milliseconds. The
-- responses and the observations of a target are opaque types.
pub mod Laws
use rag_eval.Prelude.{
  ℕ, zero, suc, ◌+◌, Bool, true, false, Option, none, some, String, List, [], ◌∷◌, ◌++◌, ◌==◌, leb,
  max, if◌then◌else◌,
}

-- `class CaseExecutionStatus`; the column is a text, so `other` stands for any other text.
pub data CaseExecutionStatus : Type 0 where
  pending running target_complete scoring complete failed retry_pending : CaseExecutionStatus
  interrupted unknown : CaseExecutionStatus
  other : String → CaseExecutionStatus

-- `class AttemptStatus`
pub data AttemptStatus : Type 0 where
  created running response_received normalized succeeded : AttemptStatus
  retryable_failure permanent_failure unknown_outcome : AttemptStatus

-- `class AttemptRecord`
pub record Attempt : Type 0 where
  pub attempt_number : ℕ
  pub request_id : String
  pub idempotency_key : Option String
  pub canonical_request_hash : Option String
  pub status : AttemptStatus
  pub started_at : Option ℕ
  pub updated_at : Option ℕ
  pub finished_at : Option ℕ
  pub retryable : Option Bool
  pub error_summary : Option String
  pub raw_response_artifact_id : Option String

-- The row of the case execution with all that hangs on it; `calls` counts the requests that have
-- been sent to the target, which no column of the source records.
pub record CaseStore (Observation : Type 0) : Type 0 where
  pub status : CaseExecutionStatus
  pub started_at : Option ℕ
  pub finished_at : Option ℕ
  pub attempts : List Attempt
  pub observations : List (ℕ × Observation)
  pub errors : List (Option ℕ × String)
  pub calls : ℕ

-- `get_latest_attempt`: the attempt with the highest number.
unfoldable pub latest_attempt : List Attempt → Option Attempt
latest_attempt [] = none
latest_attempt (a ∷ rest) = elim (latest_attempt rest) [
  | none ↦ some a
  | some b ↦ if leb b.attempt_number a.attempt_number then some a else some b
]

-- `get_attempt`
unfoldable pub get_attempt : ℕ → List Attempt → Option Attempt
get_attempt n [] = none
get_attempt n (a ∷ rest) = if a.attempt_number == n then some a else get_attempt n rest

-- A write to the row of one attempt.
unfoldable pub update_attempt : ℕ → (Attempt → Attempt) → List Attempt → List Attempt
update_attempt n f [] = []
update_attempt n f (a ∷ rest) =
    if a.attempt_number == n then f a ∷ rest else a ∷ update_attempt n f rest

-- `max((attempt.attempt_number for attempt in attempts), default=0)`
unfoldable pub highest : List Attempt → ℕ
highest [] = 0
highest (a ∷ rest) = max a.attempt_number (highest rest)

-- `get_observation_for_attempt`
unfoldable pub get_observation : {O : Type 0} → ℕ → List (ℕ × O) → Option O
get_observation n [] = none
get_observation n ((m, o) ∷ os) = if m == n then some o else get_observation n os

-- Equality of two error keys.
abbrev pub same_key : Option ℕ → Option ℕ → Bool
same_key none none = true
same_key (some m) (some n) = m == n
same_key none (some n) = false
same_key (some m) none = false

-- Whether the error table has a row of that primary key.
unfoldable pub has_error : Option ℕ → List (Option ℕ × String) → Bool
has_error k [] = false
has_error k ((j, message) ∷ es) = if same_key j k then true else has_error k es
