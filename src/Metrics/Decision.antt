-- ===== src/Metrics/Decision.antt =====
-- The decision metrics: src/rag_eval/metrics/decision.py.
--
-- A computed value is 0 or 1 and stands by its truth value.
pub mod Agreement
use rag_eval.Prelude.{Bool, true, false, not, ◌&&◌, Option, none, some, if◌then◌else◌}
use rag_eval.Metrics.Presence.{
  ContextView, ObservationView, Answerability, answerable, unanswerable, ambiguous, unknown,
  DecisionAction, accept, reject, abstain, undecided, has_decision,
}

-- How a decision metric ends.
pub data DecisionResult : Type 0 where
  missing : DecisionResult
  valued : Bool → DecisionResult

unfoldable pub DecisionAction-discrete : Discrete DecisionAction
DecisionAction-discrete = hlevel

unfoldable pub Answerability-discrete : Discrete Answerability
Answerability-discrete = hlevel

abbrev pub same_action : DecisionAction → DecisionAction → Bool
same_action a b = elim (DecisionAction-discrete a b) [ yes p ↦ true | no n ↦ false ]

abbrev pub same_answerability : Answerability → Answerability → Bool
same_answerability a b = elim (Answerability-discrete a b) [ yes p ↦ true | no n ↦ false ]

action_of : Option ObservationView → Option DecisionAction
action_of none = none
action_of (some o) = o.action

-- `_decision`
unfoldable pub decision_of : ContextView → Option DecisionAction
unfolding action_of
decision_of c = if has_decision c then action_of c.observation else none

-- `_ActionRate.compute`, of AcceptRate, RejectRate and AbstentionRate.
unfoldable pub action_rate : DecisionAction → ContextView → DecisionResult
action_rate a c = elim (decision_of c) [
  | none ↦ missing
  | some action ↦ valued (same_action action a)
]

-- The check for a decision and an answerability that the other metrics begin with.
unfoldable pub with_both :
    ContextView → (DecisionAction → Answerability → DecisionResult) → DecisionResult
with_both c f = elim (decision_of c) [
  | none ↦ missing
  | some action ↦ elim c.case.answerable_as [ none ↦ missing | some known ↦ f action known ]
]

-- `expected` of AnswerabilityAccuracy
unfoldable pub expected_action : Answerability → Option DecisionAction
expected_action answerable = some accept
expected_action unanswerable = some reject
expected_action ambiguous = none
expected_action unknown = none

-- `AnswerabilityAccuracy.compute`
unfoldable pub answerability_accuracy : ContextView → DecisionResult
answerability_accuracy c = with_both c (λ action known. elim (expected_action known) [
  | none ↦ missing
  | some expected ↦ valued (same_action action expected)
])

-- `FalseAnswerRate.compute`
unfoldable pub false_answer_rate : ContextView → DecisionResult
false_answer_rate c =
    with_both c
      (λ action known. valued (same_action action accept && same_answerability known unanswerable))

-- `FalseAbstentionRate.compute`
unfoldable pub false_abstention_rate : ContextView → DecisionResult
false_abstention_rate c =
    with_both c
      (λ action known. valued (same_action action abstain && same_answerability known answerable))

-- `AbstentionPrecision.compute`
unfoldable pub abstention_precision : ContextView → DecisionResult
abstention_precision c = with_both c (λ action known.
    if same_action action abstain then valued (same_answerability known unanswerable) else missing)

-- `AbstentionRecall.compute`
unfoldable pub abstention_recall : ContextView → DecisionResult
abstention_recall c = with_both c (λ action known.
    if same_answerability known unanswerable then valued (same_action action abstain) else missing)
