-- ===== src/RuleController/DryRun/Agreement.antt =====
-- About processDryRun beside evaluateRuleForNode: what it counts of a node is what an evaluation does.
use node_readiness_controlle.Prelude.{
  ◌^◌, ◌<◌, true, false, none, some, ◌≡◌, ◌↔◌, ap, arith, length,
}
use node_readiness_controlle.Api.{Node, NodeReadinessRule}
use node_readiness_controlle.Platform.{ok, Client}
use node_readiness_controlle.NodeController.Taints.Stored.{read_taint, taint_view}
use node_readiness_controlle.RuleController.Cache.{rule_applies_to}
use node_readiness_controlle.RuleController.Evaluate.{evaluate_rule_for_node}
use node_readiness_controlle.RuleController.Evaluate.Stored.{NodeLaws, evaluate_view}
use node_readiness_controlle.RuleController.DryRun.{zero_counts, count_node}
use node_readiness_controlle.RuleController.DryRun.Counting.{count_node_lem}

module _ {W S : Type 0} (c : Client W S) (laws : NodeLaws c) (rule : NodeReadinessRule)
    (node : Node) (w : W) where
  -- On a server that no other writer changes, that stores what a patch or an update sends, and
  -- with a retry that calls again only after a conflict: for a stored node that the rule applies
  -- to, with fewer than 2 ^ 63 required conditions, and an evaluation that reports no error, the
  -- dry run counts a removal for the node exactly when the node has the taint on the server
  -- before the evaluation and lacks it after, and an addition exactly when it lacks it before and
  -- has it after.
  pub evaluate_as_counted :
      rule_applies_to c rule node ≡ true
      → length rule.spec.conditions < 2 ^ 63
      → (c.get_node node.name w).0 ≡ ok node
      → (evaluate_rule_for_node c rule node w).2 ≡ none
      → let after =
          taint_view c rule.spec.taint node.name (evaluate_rule_for_node c rule node w).3 in
        let before = taint_view c rule.spec.taint node.name w in
        (((count_node rule node zero_counts).to_remove ≡ 1)
          ↔ ((before ≡ some true) × (after ≡ some false)))
        × (((count_node rule node zero_counts).to_add ≡ 1)
            ↔ ((before ≡ some false) × (after ≡ some true)))
  evaluate_as_counted applies few current fine =
      let counts =
        count_node_lem c rule node zero_counts few (omega arith) (omega arith) (omega arith)
          (omega arith) applies in
      rw
        (
          ap (read_taint rule.spec.taint) current,
          evaluate_view c laws rule node w current fine,
          counts,
        )
        (ground (arith, applies))
