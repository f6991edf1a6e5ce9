-- ===== src/RuleController/Cleanup.antt =====
-- The clean-ups: cleanupTaintsForRule, cleanupNodesAfterSelectorChange and cleanupDeletedNodes.
pub mod Laws
pub mod Safety
pub mod Spares
pub mod Pruning
use node_readiness_controlle.Prelude.{
  String, Bool, not, ◌&&◌, List, [], ◌∷◌, ◌++◌, Option, none, some, ◌==◌, any_of, keep_if, length,
  nat_eq, if◌then◌else◌,
}
use node_readiness_controlle.Prelude.Format.{concat, join}
use node_readiness_controlle.Api.{Taint, Node, NodeEvaluation, NodeReadinessRule, with_evaluations}
use node_readiness_controlle.Platform.{Error, wrapped, text, Result, ok, err, error_string, Client}
use node_readiness_controlle.NodeController.Taints.{has_taint_by_spec, remove_taint_by_spec}
use node_readiness_controlle.NodeController.Bootstrap.{to_unit}
use node_readiness_controlle.RuleController.Cache.{rule_applies_to}

-- The error list after a removal: `fmt.Sprintf("node %s: %v", node.Name, err)` for an error.
abbrev pub note_error : {W : Type 0} → List String → Node × Option Error × W → List String
note_error errors (node, none, w) = errors
note_error errors (node, some e, w) =
    errors ++ concat ("node " ∷ node.name ∷ ": " ∷ error_string e ∷ []) ∷ []

-- `if len(errors) > 0 { return fmt.Errorf(…) }; return nil`
abbrev pub report_errors : List String → Result (Unit {0})
report_errors [] = ok tt
report_errors (e ∷ errors) =
    err (text (concat ("failed to cleanup taints on some nodes: " ∷ join "; " (e ∷ errors) ∷ [])))

-- The evaluations of the nodes that are listed.
abbrev pub existing_evaluations : List Node → List NodeEvaluation → List NodeEvaluation
existing_evaluations nodes =
    keep_if (λ evaluation. any_of (λ node. node.name == evaluation.node_name) nodes)

module _ {W S : Type 0} (c : Client W S) where
  -- Both loops: the taint is removed from each chosen node that has it, and errors are collected.
  unfoldable pub remove_taints :
      (Node → Bool) → Taint → List Node → List String → W → List String × W
  remove_taints chosen spec [] errors w = (errors, w)
  remove_taints chosen spec (node ∷ rest) errors w =
      let removed = remove_taint_by_spec c node spec w in
      let next = remove_taints chosen spec rest (note_error errors removed) removed.2 in
      let skipped = remove_taints chosen spec rest errors w in
      if chosen node && has_taint_by_spec node spec then next else skipped

  abbrev pub reported : List String × W → Result (Unit {0}) × W
  reported (errors, w) = (report_errors errors, w)

  abbrev pub cleanup_listed : NodeReadinessRule → Result (List Node) × W → Result (Unit {0}) × W
  cleanup_listed rule (err e, w) = (err (wrapped "failed to list nodes: " e), w)
  cleanup_listed rule (ok nodes, w) =
      reported (remove_taints (rule_applies_to c rule) rule.spec.taint nodes [] w)

  unfoldable pub cleanup_taints_for_rule : NodeReadinessRule → W → Result (Unit {0}) × W
  cleanup_taints_for_rule rule w = cleanup_listed rule (c.list_nodes w)

  -- The nodes that matched the old selector and do not match the new one.
  abbrev pub left_behind : S → NodeReadinessRule → Node → Bool
  left_behind old_selector new_rule node =
      c.matches old_selector node.labels && not (rule_applies_to c new_rule node)

  abbrev pub cleanup_left_behind :
      Result S → NodeReadinessRule → List Node → W → Result (Unit {0}) × W
  cleanup_left_behind (err e) new_rule nodes w =
      (err (wrapped "failed to parse old node selector: " e), w)
  cleanup_left_behind (ok old_selector) new_rule nodes w =
      reported (remove_taints (left_behind old_selector new_rule) new_rule.spec.taint nodes [] w)

  abbrev pub cleanup_change_listed :
      NodeReadinessRule → NodeReadinessRule → Result (List Node) × W → Result (Unit {0}) × W
  cleanup_change_listed old_rule new_rule (err e, w) = (err (wrapped "failed to list nodes: " e), w)
  cleanup_change_listed old_rule new_rule (ok nodes, w) =
      cleanup_left_behind (c.as_selector old_rule.spec.node_selector) new_rule nodes w

  unfoldable pub cleanup_nodes_after_selector_change :
      NodeReadinessRule → NodeReadinessRule → W → Result (Unit {0}) × W
  cleanup_nodes_after_selector_change old_rule new_rule w =
      cleanup_change_listed old_rule new_rule (c.list_nodes w)

  abbrev pub prune_fresh : List Node → Result NodeReadinessRule × W → Result (Unit {0}) × W
  prune_fresh nodes (err e, w) = (err e, w)
  prune_fresh nodes (ok fresh, w) =
      let kept = existing_evaluations nodes fresh.status.node_evaluations in
      if nat_eq (length kept) (length fresh.status.node_evaluations)
      then (ok tt, w)
      else to_unit (c.update_rule_status (with_evaluations fresh kept) w)

  -- The function that cleanupDeletedNodes retries.
  unfoldable pub prune_attempt : List Node → String → W → Result (Unit {0}) × W
  prune_attempt nodes rule_name w = prune_fresh nodes (c.get_rule rule_name w)

  abbrev pub prune_listed : NodeReadinessRule → Result (List Node) × W → Result (Unit {0}) × W
  prune_listed rule (err e, w) = (err e, w)
  prune_listed rule (ok nodes, w) =
      let kept = existing_evaluations nodes rule.status.node_evaluations in
      if nat_eq (length kept) (length rule.status.node_evaluations)
      then (ok tt, w)
      else c.retry_on_conflict (prune_attempt nodes rule.name) w

  unfoldable pub cleanup_deleted_nodes : NodeReadinessRule → W → Result (Unit {0}) × W
  cleanup_deleted_nodes rule w = prune_listed rule (c.list_nodes w)
