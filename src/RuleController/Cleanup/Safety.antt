-- ===== src/RuleController/Cleanup/Safety.antt =====
-- The two clean-ups of taints that Reconcile runs before it lets go of nodes.
use node_readiness_controlle.Prelude.{
  String, true, false, List, [], ◌∷◌, ◌≡◌, refl, arith, IsIn, All-IsIn,
}
use node_readiness_controlle.Api.{Node, NodeReadinessRule}
use node_readiness_controlle.Platform.{ok, Client}
use node_readiness_controlle.Platform.Laws.{PatchLaw, TaintStoreLaw}
use node_readiness_controlle.RuleController.Cache.{rule_applies_to}
use node_readiness_controlle.RuleController.Cleanup.{
  report_errors, cleanup_taints_for_rule, left_behind, cleanup_nodes_after_selector_change,
}
use node_readiness_controlle.RuleController.Cleanup.Laws.{IsClean, remove_taints_cleans}

no_errors : (errors : List String) → report_errors errors ≡ ok tt → errors ≡ []
no_errors [] h = refl
no_errors (e ∷ errors) h = cc

module _ {W S : Type 0} (c : Client W S) (patches : PatchLaw c) (store : TaintStoreLaw c) where
  -- On a server that no other writer changes and that stores what a patch sends: where the nodes
  -- are listed, if the clean-up of a rule reports no error, no listed node that the rule applies
  -- to has its taint on the server afterwards.
  pub cleanup_taints_cleans :
      (rule : NodeReadinessRule) (nodes : List Node) (node : Node) (w w' : W)
      → c.list_nodes w ≡ (ok nodes, w')
      → IsIn node nodes
      → rule_applies_to c rule node ≡ true
      → (cleanup_taints_for_rule c rule w).0 ≡ ok tt
      → IsClean c patches store rule.spec.taint (cleanup_taints_for_rule c rule w).1 node.name
  unfolding cleanup_taints_for_rule
  cleanup_taints_cleans rule nodes node w w' e here applies = rw e (λ done.
      All-IsIn _ nodes
        (remove_taints_cleans c patches store rule.spec.taint (rule_applies_to c rule) nodes [] w' _
          (store.list_nodes_current nodes w w' e).0 (store.list_nodes_current nodes w w' e).1 refl
          (no_errors _ done))
        here applies)

  -- On a server that no other writer changes and that stores what a patch sends: where the nodes
  -- are listed and the old selector parses, if the clean-up after a change of the selector
  -- reports no error, no listed node that the old selector matches and the new rule does not
  -- apply to has the new rule's taint on the server afterwards.
  pub cleanup_change_cleans :
      (old_rule new_rule : NodeReadinessRule) (selector : S) (nodes : List Node) (node : Node)
      (w w' : W)
      → c.list_nodes w ≡ (ok nodes, w')
      → c.as_selector old_rule.spec.node_selector ≡ ok selector
      → IsIn node nodes
      → c.matches selector node.labels ≡ true
      → rule_applies_to c new_rule node ≡ false
      → (cleanup_nodes_after_selector_change c old_rule new_rule w).0 ≡ ok tt
      → IsClean c patches store new_rule.spec.taint
          (cleanup_nodes_after_selector_change c old_rule new_rule w).1
          node.name
  unfolding cleanup_nodes_after_selector_change
  cleanup_change_cleans old_rule new_rule selector nodes node w w' e parses here old new =
      rw (e, parses)
        (λ done.
          All-IsIn _ nodes
            (remove_taints_cleans c patches store new_rule.spec.taint
              (left_behind c selector new_rule) nodes [] w' _
              (store.list_nodes_current nodes w w' e).0 (store.list_nodes_current nodes w w' e).1
              refl (no_errors _ done))
            here (ground (arith, old, new)))
