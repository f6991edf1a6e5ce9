-- ===== src/RuleController/Evaluate/Convergence.antt =====
-- About evaluateRuleForNode run again on what it left.
use node_readiness_controlle.Prelude.{
  Bool, true, false, not, List, [], ◌∷◌, Option, none, some, ◌≡◌, refl, ap, sym, subst, ◌∙◌, arith,
}
use node_readiness_controlle.Api.{
  Taint, Node, NodeReadinessRule, NodeReadinessRuleSpec, ConditionRequirement,
}
use node_readiness_controlle.Platform.{Error, Result, ok, err, Client}
use node_readiness_controlle.Platform.Laws.{PatchLaw, ConditionsLaw}
use node_readiness_controlle.NodeController.Taints.{
  has_taint_by_spec, after_patch, with_taint, without_taint, add_taint_by_spec,
  remove_taint_by_spec,
}
use node_readiness_controlle.RuleController.Evaluate.{
  after_removal, after_addition, act, evaluate_rule_for_node,
}
use node_readiness_controlle.RuleController.Evaluate.Conditions.{meets_all}
use node_readiness_controlle.RuleController.Evaluate.Outcome.{
  results, evaluate_lem, act_settles, evaluate_settled,
}

meets_all_by_conditions :
    (node node' : Node) (reqs : List ConditionRequirement)
    → node.conditions ≡ node'.conditions
    → meets_all node reqs ≡ meets_all node' reqs
unfolding meets_all
meets_all_by_conditions node node' [] e = refl
meets_all_by_conditions node node' (req ∷ rest) e =
    ground (arith, meets_all_by_conditions node node' rest e)

module _ {W S : Type 0} (c : Client W S) (kept : ConditionsLaw c) where
  patched_conditions :
      (base : Node) (taints : List Taint) (w : W) (p : Result Node × W)
      → (c.get_node base.name w).0 ≡ ok base
      → c.patch_node base (record base { taints = taints }) w ≡ p
      → (after_patch (record base { taints = taints }) p).0.conditions ≡ base.conditions
  patched_conditions base taints w (ok fresh, w') current q = kept base fresh taints w w' current q
  patched_conditions base taints w (err e, w') current q = refl

  module _ (rule : NodeReadinessRule) (node : Node) (w : W)
      (current : (c.get_node node.name w).0 ≡ ok node) where
    removal_conditions :
        (p : Node × Option Error × W)
        → (after_removal c rule (results c rule node w) p).1.conditions ≡ p.0.conditions
    removal_conditions (m, some e, v) = refl
    removal_conditions (m, none, v) = refl

    addition_conditions :
        (p : Node × Option Error × W)
        → (after_addition c rule (results c rule node w) p).1.conditions ≡ p.0.conditions
    addition_conditions (m, some e, v) = refl
    addition_conditions (m, none, v) = refl

    act_conditions :
        (b has : Bool)
        → (act c rule node b has (results c rule node w) w).1.conditions ≡ node.conditions
    unfolding remove_taint_by_spec add_taint_by_spec
    act_conditions true true =
        removal_conditions (remove_taint_by_spec c node rule.spec.taint w)
        ∙ patched_conditions node (without_taint node rule.spec.taint).taints w _ current refl
    act_conditions true false = refl
    act_conditions false true = refl
    act_conditions false false =
        addition_conditions (add_taint_by_spec c node rule.spec.taint w)
        ∙ patched_conditions node (with_taint node rule.spec.taint).taints w _ current refl

    now_settled :
        PatchLaw c
        → (evaluate_rule_for_node c rule node w).2 ≡ none
        → has_taint_by_spec (evaluate_rule_for_node c rule node w).1 rule.spec.taint
          ≡ not (meets_all (evaluate_rule_for_node c rule node w).1 rule.spec.conditions)
    now_settled patches = rw (evaluate_lem c rule node w) (λ done.
        act_settles c rule node w patches (meets_all node rule.spec.conditions) done
        ∙ ap not (
            meets_all_by_conditions node _ rule.spec.conditions (
              sym (
                act_conditions (meets_all node rule.spec.conditions)
                  (has_taint_by_spec node rule.spec.taint)))))

    -- If a patch that succeeds stores the taints sent and gives back the conditions of the stored
    -- version that it changes: after one evaluation of a stored node that reports no error,
    -- another evaluation of what it left, with any rule of the same spec and on any world, makes
    -- no call that changes the world, reports no error, and leaves the node as it is.
    pub evaluate_converges :
        PatchLaw c
        → (rule' : NodeReadinessRule) (v : W) → rule.spec ≡ rule'.spec
        → (evaluate_rule_for_node c rule node w).2 ≡ none
        → let node' = (evaluate_rule_for_node c rule node w).1 in
          let again = evaluate_rule_for_node c rule' node' v in
          (again.1 ≡ node') × (again.2 ≡ none) × (again.3 ≡ v)
    evaluate_converges patches rule' v same done =
        let node' = (evaluate_rule_for_node c rule node w).1 in
        evaluate_settled c rule' node' v (
          subst
            (λ (s : NodeReadinessRuleSpec).
              has_taint_by_spec node' s.taint ≡ not (meets_all node' s.conditions))
            same (now_settled patches done))
