-- ===== src/RuleController/Process.antt =====
-- processAllNodesForRule: a rule against every node that it applies to.
pub mod Laws
pub mod Accounts
pub mod Refinement
pub mod Foreign
use node_readiness_controlle.Prelude.{String, not, List, [], ◌∷◌, ◌++◌, none, some, if◌then◌else◌}
use node_readiness_controlle.Api.{Node, NodeReadinessRule, no_dry_run_results}
use node_readiness_controlle.Platform.{Result, ok, err, error_string, Client}
use node_readiness_controlle.RuleController.Status.{record_node_failure}
use node_readiness_controlle.RuleController.Cache.{rule_applies_to}
use node_readiness_controlle.RuleController.Evaluate.{Evaluated, evaluate_rule_for_node}

module _ {W S : Type 0} (c : Client W S) where
  -- The rule after an evaluation: an error is recorded as a failure of the node.
  abbrev pub note_failure : Evaluated c → NodeReadinessRule
  note_failure (rule, node, none, w) = rule
  note_failure (rule, node, some e, w) =
      record_node_failure rule node.name "EvaluationError" (error_string e) (c.now w)

  -- The loop over the nodes, with its variable appliedNodes.
  unfoldable pub process_nodes :
      NodeReadinessRule → List Node → List String → W → NodeReadinessRule × List String × W
  process_nodes rule [] applied w = (rule, applied, w)
  process_nodes rule (node ∷ rest) applied w =
      let evaluated = evaluate_rule_for_node c rule node w in
      let next =
        process_nodes (note_failure evaluated) rest (applied ++ node.name ∷ []) evaluated.3 in
      let skipped = process_nodes rule rest applied w in
      if rule_applies_to c rule node then next else skipped

  -- The status fields that the end of the function sets.
  abbrev pub finish_processing : NodeReadinessRule × List String × W → Result NodeReadinessRule × W
  finish_processing (rule, applied, w) =
      let status = record (rule.status) {
        observed_generation = rule.generation;
        applied_nodes = applied;
        dry_run_results =
            if not rule.spec.dry_run then no_dry_run_results else rule.status.dry_run_results;
      } in
      (ok (record rule { status = status }), w)

  abbrev pub process_listed :
      NodeReadinessRule → Result (List Node) × W → Result NodeReadinessRule × W
  process_listed rule (ok nodes, w) = finish_processing (process_nodes rule nodes [] w)
  process_listed rule (err e, w) = (err e, w)

  unfoldable pub process_all_nodes_for_rule : NodeReadinessRule → W → Result NodeReadinessRule × W
  process_all_nodes_for_rule rule w = process_listed rule (c.list_nodes w)
