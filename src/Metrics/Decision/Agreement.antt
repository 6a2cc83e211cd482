-- ===== src/Metrics/Decision/Agreement.antt =====
-- How the decision metrics of src/rag_eval/metrics/decision.py agree with each other.
use rag_eval.Prelude.{◌≡◌, ◌↔◌, true, false, arith}
use rag_eval.Metrics.Presence.{ContextView, accept, abstain}
use rag_eval.Metrics.Decision.{
  missing, valued, with_both, action_rate, expected_action, answerability_accuracy,
  false_answer_rate, false_abstention_rate, abstention_precision, abstention_recall,
}

-- A right decision, by the answerability accuracy, is never a false answer or a false abstention. An
-- abstention on an unanswerable case is right by the precision and the recall of abstentions, and
-- wrong by the answerability accuracy. Of the rates of acceptance, rejection and abstention at most
-- one is 1, and where one is computed all are.
pub decisions_agree :
    (c : ContextView)
    → (answerability_accuracy c ≡ valued true
        → (false_answer_rate c ≡ valued false) × (false_abstention_rate c ≡ valued false))
      × ((abstention_precision c ≡ valued true) ↔ (abstention_recall c ≡ valued true))
      × (abstention_precision c ≡ valued true → answerability_accuracy c ≡ valued false)
      × (action_rate accept c ≡ valued true → action_rate abstain c ≡ valued false)
      × ((action_rate accept c ≡ missing) ↔ (action_rate abstain c ≡ missing))
unfolding answerability_accuracy false_answer_rate false_abstention_rate abstention_precision
    abstention_recall action_rate with_both expected_action
decisions_agree c = ground arith
