-- ===== src/RuleController/Evaluate.antt =====
-- evaluateRuleForNode: the conditions of a node against a rule, and the taint that follows.
pub mod Conditions
pub mod Outcome
pub mod Stored
pub mod Convergence
use node_readiness_controlle.Prelude.{
  String, Bool, true, false, not, ◌&&◌, List, [], ◌∷◌, ◌++◌, Option, none, some, ◌==◌,
  if◌then◌else◌,
}
use node_readiness_controlle.Api.{
  Taint, Node, condition_unknown, ConditionRequirement, ConditionEvaluationResult, TaintStatus,
  present, absent, NodeReadinessRule, bootstrap_only,
}
use node_readiness_controlle.Platform.{Error, wrapped, Client}
use node_readiness_controlle.NodeController.Taints.{
  has_taint_by_spec, add_taint_by_spec, remove_taint_by_spec,
}
use node_readiness_controlle.NodeController.Conditions.{get_condition_status}
use node_readiness_controlle.NodeController.Bootstrap.{mark_bootstrap_completed}
use node_readiness_controlle.RuleController.Status.{update_node_evaluation_status}

-- One round of the loop over the conditions: the result that it appends.
abbrev pub evaluate_condition : Node → ConditionRequirement → ConditionEvaluationResult
evaluate_condition node req = record {
  cond_type = req.cond_type;
  current_status = get_condition_status node req.cond_type;
  required_status = req.required_status;
  satisfied = get_condition_status node req.cond_type == req.required_status;
  missing = get_condition_status node req.cond_type == condition_unknown;
}

-- The loop, with its variables allConditionsSatisfied and conditionResults.
unfoldable pub evaluate_conditions :
    Node
    → List ConditionRequirement
    → Bool
    → List ConditionEvaluationResult
    → Bool × List ConditionEvaluationResult
evaluate_conditions node [] all_satisfied results = (all_satisfied, results)
evaluate_conditions node (req ∷ rest) all_satisfied results =
    let result = evaluate_condition node req in
    evaluate_conditions node rest (if result.satisfied then all_satisfied else false)
      (results ++ result ∷ [])

abbrev pub observed_status : Node → Taint → TaintStatus
observed_status node spec = if has_taint_by_spec node spec then present else absent

module _ {W S : Type 0} (c : Client W S) where
  -- The rule and the node as the call leaves them, the error, and the world after it.
  abbrev pub Evaluated : Type 0
  Evaluated = NodeReadinessRule × Node × Option Error × W

  -- The end of the function, which every case but an error reaches.
  abbrev pub finish_evaluation :
      NodeReadinessRule → List ConditionEvaluationResult → Node → W → Evaluated
  finish_evaluation rule results node w = (
    update_node_evaluation_status rule node.name results (observed_status node rule.spec.taint)
        (c.now w),
    node,
    none,
    w,
  )

  abbrev pub after_removal :
      NodeReadinessRule → List ConditionEvaluationResult → Node × Option Error × W → Evaluated
  after_removal rule results (node, some e, w) =
      (rule, node, some (wrapped "failed to remove taint: " e), w)
  after_removal rule results (node, none, w) = finish_evaluation rule results node (
      if rule.spec.enforcement_mode == bootstrap_only
      then mark_bootstrap_completed c node.name rule.name w
      else w)

  abbrev pub after_addition :
      NodeReadinessRule → List ConditionEvaluationResult → Node × Option Error × W → Evaluated
  after_addition rule results (node, some e, w) =
      (rule, node, some (wrapped "failed to add taint: " e), w)
  after_addition rule results (node, none, w) = finish_evaluation rule results node w

  -- The switch on what the conditions ask for and on the taint that the node has.
  abbrev pub act :
      NodeReadinessRule → Node → Bool → Bool → List ConditionEvaluationResult → W → Evaluated
  act rule node should_remove has results w =
      if should_remove && has
      then after_removal rule results (remove_taint_by_spec c node rule.spec.taint w)
      else if not should_remove && not has
      then after_addition rule results (add_taint_by_spec c node rule.spec.taint w)
      else finish_evaluation rule results node w

  unfoldable pub evaluate_rule_for_node : NodeReadinessRule → Node → W → Evaluated
  evaluate_rule_for_node rule node w =
      let (all_satisfied, results) = evaluate_conditions node rule.spec.conditions true [] in
      act rule node all_satisfied (has_taint_by_spec node rule.spec.taint) results w
