-- ===== src/Examples/Executor.antt =====
-- Executions of a case by src/rag_eval/execution/engine.py.
use rag_eval.Prelude.{
  ◌+◌, ◌≡◌, ◌⊎◌, inl, inr, true, false, none, some, String, [], ◌∷◌, length, refl, arith,
}
use rag_eval.Execution.Store.{
  CaseExecutionStatus, pending, Attempt, CaseStore, latest_attempt, highest, get_attempt,
  get_observation,
}
use rag_eval.Execution.Recovery.{
  RawDocument, found, decide_recovery, parse_raw_response, renormalize_attempt, try_renormalize,
  mark_unknown,
}
use rag_eval.Execution.Recovery.Laws.{HasResult, Lost}
use rag_eval.Execution.Transactions.{
  Inputs, returned, new_attempt, next_attempt_number, register_attempt, registered,
}
use rag_eval.Execution.Executor.{World, execute_case, sources_of, staleness_threshold}
use rag_eval.Execution.Executor.Commits.{IsConsistent}
use rag_eval.Execution.Executor.Guarantees.{execute_case-IsConsistent}
use rag_eval.Execution.Executor.Calls.{Quiet, execute_case-once}
use rag_eval.Execution.Executor.Durability.{
  durable_result_is_kept, stored_response, crash_after_response, mark_unknown_repeats,
}
use rag_eval.Examples.Recovery.{lost_attempt}

abbrev document : RawDocument String
document = record {
  is_object = true;
  has_status = true;
  has_answer = true;
  has_retrieval = false;
  as_query = some "answer";
  as_retrieve = none;
}

-- A target without either capability; every artifact holds the document.
abbrev world : World String String
world = record {
  fetch = λ id. found document;
  normalize = λ r id. some r;
  recover = λ id. none;
  capabilities = record { idempotency = false; request_recovery = false };
  score = none;
}

abbrev inputs : Inputs String
inputs = record {
  now = 5000;
  fresh_request_id = "request-2";
  canonical_hash = "hash-2";
  attempt_key = λ n. "key-2";
  response_artifact_id = "artifact-2";
  outcome = returned "answer";
}

abbrev fresh_case : CaseStore String
fresh_case = record {
  status = pending;
  started_at = none;
  finished_at = none;
  attempts = [];
  observations = [];
  errors = [];
  calls = 0;
}

abbrev uncertain_case : CaseStore String
uncertain_case = record fresh_case {
  status = CaseExecutionStatus.unknown;
  attempts = lost_attempt ∷ [];
  calls = 1;
}

-- The same with a stored raw response.
abbrev answered_attempt : Attempt
answered_attempt = record lost_attempt { raw_response_artifact_id = some "artifact-1" }

abbrev answered_case : CaseStore String
answered_case = record uncertain_case { attempts = answered_attempt ∷ [] }

abbrev first_registered : CaseStore String
first_registered = record fresh_case {
  status = CaseExecutionStatus.running;
  started_at = some 5000;
  attempts = new_attempt inputs 1 ∷ [];
}

registers :
    register_attempt inputs (next_attempt_number fresh_case) fresh_case
    ≡ registered first_registered
unfolding register_attempt next_attempt_number highest get_attempt
registers = refl

parses : parse_raw_response document ≡ some "answer"
unfolding parse_raw_response
parses = refl

crash_after_response_example :
    Quiet (stored_response inputs (next_attempt_number fresh_case) first_registered) (
      execute_case world inputs
        (stored_response inputs (next_attempt_number fresh_case) first_registered))
crash_after_response_example =
    crash_after_response world inputs inputs fresh_case first_registered document "answer" "answer"
      registers refl refl parses refl

answered-latest : latest_attempt answered_case.attempts ≡ some answered_attempt
unfolding latest_attempt
answered-latest = refl

answered-HasResult : HasResult (sources_of world answered_case) answered_attempt
unfolding renormalize_attempt try_renormalize parse_raw_response
answered-HasResult = inr ("answer", refl)

durable_result_is_kept_example : Quiet answered_case (execute_case world inputs answered_case)
durable_result_is_kept_example =
    durable_result_is_kept world inputs answered_case answered_attempt answered-latest
      answered-HasResult

execute_case-once_example :
    Quiet uncertain_case (execute_case world inputs uncertain_case)
    ⊎ (((execute_case world inputs uncertain_case).calls ≡ 1 + 1)
        × (length (execute_case world inputs uncertain_case).attempts ≡ 1 + 1))
execute_case-once_example = execute_case-once world inputs uncertain_case

fresh_case-IsConsistent : IsConsistent fresh_case
fresh_case-IsConsistent = record { complete_observed = λ e. ground arith; owned = tt }

execute_case-IsConsistent_example : IsConsistent (execute_case world inputs fresh_case)
execute_case-IsConsistent_example =
    execute_case-IsConsistent world inputs fresh_case fresh_case-IsConsistent

uncertain-latest : latest_attempt uncertain_case.attempts ≡ some lost_attempt
unfolding latest_attempt
uncertain-latest = refl

uncertain-Lost : Lost (sources_of world uncertain_case) (some lost_attempt)
unfolding renormalize_attempt get_observation
uncertain-Lost = (refl, refl)

mark_unknown_repeats_example :
    ((decide_recovery
        (sources_of world uncertain_case)
        staleness_threshold
        5000
        CaseExecutionStatus.unknown
        (some lost_attempt)).action
      ≡ mark_unknown)
    × ((execute_case world inputs uncertain_case).calls ≡ 1 + 1)
    × (length (execute_case world inputs uncertain_case).attempts ≡ 1 + 1)
mark_unknown_repeats_example =
    mark_unknown_repeats world inputs uncertain_case lost_attempt (inl refl) uncertain-latest
      uncertain-Lost refl refl
