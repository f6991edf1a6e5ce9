-- ===== src/RuleController/Cleanup/Spares.antt =====
-- The two clean-ups of taints that Reconcile runs, and the nodes that they leave alone.
use node_readiness_controlle.Prelude.{
  String, Bool, true, false, List, [], ◌∷◌, ◌≡◌, ◌&&◌, refl, arith, ◌∙◌, All, Bool-cases, inl, inr,
}
use node_readiness_controlle.Api.{Taint, Node, NodeReadinessRule}
use node_readiness_controlle.Platform.{Result, ok, err, Client}
use node_readiness_controlle.Platform.Laws.{PatchLaw, TaintStoreLaw}
use node_readiness_controlle.NodeController.Taints.{has_taint_by_spec, remove_taint_by_spec}
use node_readiness_controlle.NodeController.Taints.Stored.{remove_taint_others}
use node_readiness_controlle.RuleController.Cache.{rule_applies_to}
use node_readiness_controlle.RuleController.Cleanup.{
  note_error, remove_taints, left_behind, cleanup_left_behind, cleanup_taints_for_rule,
  cleanup_nodes_after_selector_change,
}

module _ {W S : Type 0} (c : Client W S) (patches : PatchLaw c) (store : TaintStoreLaw c)
    (n : String) where
  -- No node of that name is chosen.
  abbrev pub IsSpared : (Node → Bool) → List Node → Type 0
  IsSpared chosen = All (λ node. node.name ≡ n → chosen node ≡ false)

  remove_taints_spares :
      (chosen : Node → Bool) (spec : Taint) (nodes : List Node) (errors : List String) (w : W)
      → IsSpared chosen nodes
      → (c.get_node n (remove_taints c chosen spec nodes errors w).1).0 ≡ (c.get_node n w).0
  unfolding remove_taints
  remove_taints_spares chosen spec [] errors w spared = refl
  remove_taints_spares chosen spec (node ∷ rest) errors w spared =
      let removed = remove_taint_by_spec c node spec w in
      elim (Bool-cases (chosen node && has_taint_by_spec node spec)) [
        | inl e ↦ rw e (
            remove_taints_spares chosen spec rest (note_error errors removed) removed.2 spared.1
            ∙ remove_taint_others c patches store spec node w n (λ h. ground (arith, spared.0 h)))
        | inr e ↦ rw e (remove_taints_spares chosen spec rest errors w spared.1)
      ]

  -- Whatever its outcome, the clean-up of a rule leaves a node alone that the rule does not apply
  -- to.
  pub cleanup_taints_spares :
      (rule : NodeReadinessRule) (nodes : List Node) (w w' : W)
      → c.list_nodes w ≡ (ok nodes, w')
      → IsSpared (rule_applies_to c rule) nodes
      → (c.get_node n (cleanup_taints_for_rule c rule w).1).0 ≡ (c.get_node n w').0
  unfolding cleanup_taints_for_rule
  cleanup_taints_spares rule nodes w w' e spared =
      rw e (remove_taints_spares (rule_applies_to c rule) rule.spec.taint nodes [] w' spared)

  kept-IsSpared :
      (selector : S) (rule : NodeReadinessRule) (nodes : List Node)
      → All (λ node. node.name ≡ n → rule_applies_to c rule node ≡ true) nodes
      → IsSpared (left_behind c selector rule) nodes
  kept-IsSpared selector rule [] kept = tt
  kept-IsSpared selector rule (node ∷ rest) kept =
      (λ h. ground (arith, kept.0 h), kept-IsSpared selector rule rest kept.1)

  left_behind_spares :
      (r : Result S) (rule : NodeReadinessRule) (nodes : List Node) (w : W)
      → All (λ node. node.name ≡ n → rule_applies_to c rule node ≡ true) nodes
      → (c.get_node n (cleanup_left_behind c r rule nodes w).1).0 ≡ (c.get_node n w).0
  left_behind_spares (err e) rule nodes w kept = refl
  left_behind_spares (ok selector) rule nodes w kept =
      remove_taints_spares (left_behind c selector rule) rule.spec.taint nodes [] w
        (kept-IsSpared selector rule nodes kept)

  -- On a server that no other writer changes and that stores what a patch sends: where the nodes
  -- are listed, the clean-up after a change of the selector, whatever its outcome, leaves a node
  -- as it was if the new rule applies to every listed node of its name.
  pub cleanup_change_spares :
      (old_rule new_rule : NodeReadinessRule) (nodes : List Node) (w w' : W)
      → c.list_nodes w ≡ (ok nodes, w')
      → All (λ node. node.name ≡ n → rule_applies_to c new_rule node ≡ true) nodes
      → (c.get_node n (cleanup_nodes_after_selector_change c old_rule new_rule w).1).0
        ≡ (c.get_node n w').0
  unfolding cleanup_nodes_after_selector_change
  cleanup_change_spares old_rule new_rule nodes w w' e kept =
      rw e (left_behind_spares _ new_rule nodes w' kept)
