-- ===== src/RuleController/Status.antt =====
-- The status of a rule, node by node: updateNodeEvaluationStatus and recordNodeFailure.
pub mod Laws
use node_readiness_controlle.Prelude.{
  ℕ, String, Bool, true, false, List, [], ◌∷◌, ◌++◌, Option, none, some, ◌==◌, ◌!=◌, keep_if,
  if◌then◌else◌,
}
use node_readiness_controlle.Api.{
  TaintStatus, ConditionEvaluationResult, NodeEvaluation, NodeFailure, NodeReadinessRule,
  with_evaluations, with_failures,
}

-- The first evaluation of the node, changed; or, where there is none, a new one at the end.
unfoldable pub upsert_evaluation :
    String
    → List ConditionEvaluationResult
    → TaintStatus
    → ℕ
    → List NodeEvaluation
    → List NodeEvaluation
upsert_evaluation node_name results taint_status now [] =
    record {
      node_name = node_name;
      condition_results = results;
      taint_status = some taint_status;
      last_evaluation_time = now;
    }
    ∷ []
upsert_evaluation node_name results taint_status now (evaluation ∷ rest) =
    if evaluation.node_name == node_name
    then record evaluation {
      condition_results = results;
      taint_status = some taint_status;
      last_evaluation_time = now;
    }
      ∷ rest
    else evaluation ∷ upsert_evaluation node_name results taint_status now rest

unfoldable pub update_node_evaluation_status :
    NodeReadinessRule
    → String
    → List ConditionEvaluationResult
    → TaintStatus
    → ℕ
    → NodeReadinessRule
update_node_evaluation_status rule node_name results taint_status now =
    with_evaluations rule
      (upsert_evaluation node_name results taint_status now rule.status.node_evaluations)

-- The failures of the other nodes.
abbrev pub other_failures : String → List NodeFailure → List NodeFailure
other_failures node_name = keep_if (λ failure. failure.node_name != node_name)

unfoldable pub record_node_failure :
    NodeReadinessRule → String → String → String → ℕ → NodeReadinessRule
record_node_failure rule node_name reason message now = with_failures rule (
    other_failures node_name rule.status.failed_nodes
    ++ record {
      node_name = node_name;
      reason = reason;
      message = message;
      last_evaluation_time = now;
    }
      ∷ [])
