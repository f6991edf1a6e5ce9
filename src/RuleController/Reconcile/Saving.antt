-- ===== src/RuleController/Reconcile/Saving.antt =====
-- About updateRuleStatus and cleanupDeletedNodes, the end of a pass: the nodes on the server.
use node_readiness_controlle.Prelude.{
  String, List, ◌≡◌, refl, ◌∙◌, length, nat_eq, Bool-cases, inl, inr,
}
use node_readiness_controlle.Api.{Node, NodeReadinessRule}
use node_readiness_controlle.Platform.{Result, ok, err, Client}
use node_readiness_controlle.Platform.Laws.{RetryLaw, RuleCallLaw}
use node_readiness_controlle.Platform.Retry.{Retried_inv}
use node_readiness_controlle.NodeController.Bootstrap.{to_unit}
use node_readiness_controlle.RuleController.Persist.{
  merge_status, merge_latest, status_attempt, update_rule_status,
}
use node_readiness_controlle.RuleController.Cleanup.{
  existing_evaluations, prune_fresh, prune_attempt, prune_listed, cleanup_deleted_nodes,
}

module _ {W S : Type 0} (c : Client W S) (calls : RuleCallLaw c) (retries : RetryLaw c)
    (n : String) where
  -- The stored node is the same in both worlds.
  abbrev SameNode : W → W → Type 0
  SameNode v w = (c.get_node n v).0 ≡ (c.get_node n w).0

  to_unit_same : {A : Type 0} (p : Result A × W) (w : W) → SameNode p.1 w → SameNode (to_unit p).1 w
  to_unit_same (ok a, v) w h = h
  to_unit_same (err e, v) w h = h

  merge_same :
      (rule : NodeReadinessRule) (p : Result NodeReadinessRule × W)
      → SameNode (merge_latest c rule p).1 p.1
  merge_same rule (err e, w) = refl
  merge_same rule (ok latest, w) =
      to_unit_same (c.update_rule_status (merge_status rule latest) w) w
        (calls.update_status_nodes (merge_status rule latest) n w)

  -- The update of the status leaves the node as it is.
  pub update_rule_status_node :
      (rule : NodeReadinessRule) (w : W) → SameNode (update_rule_status c rule w).1 w
  unfolding update_rule_status status_attempt
  update_rule_status_node rule w =
      Retried_inv c (status_attempt c rule) (λ v. SameNode v w)
        (λ v h. merge_same rule (c.get_rule rule.name v) ∙ calls.get_rule_nodes rule.name n v ∙ h) _
        w (retries (status_attempt c rule) w) refl

  fresh_same :
      (nodes : List Node) (p : Result NodeReadinessRule × W)
      → SameNode (prune_fresh c nodes p).1 p.1
  fresh_same nodes (err e, w) = refl
  fresh_same nodes (ok fresh, w) =
      elim (Bool-cases (
        nat_eq (length (existing_evaluations nodes fresh.status.node_evaluations))
          (length fresh.status.node_evaluations))) [
            | inl full ↦ rw full refl
            | inr short ↦
                rw short
                  (to_unit_same (c.update_rule_status _ w) w (calls.update_status_nodes _ n w))
          ]

  listed_same :
      (rule : NodeReadinessRule) (p : Result (List Node) × W)
      → SameNode (prune_listed c rule p).1 p.1
  unfolding prune_attempt
  listed_same rule (err e, w) = refl
  listed_same rule (ok nodes, w) =
      elim (Bool-cases (
        nat_eq (length (existing_evaluations nodes rule.status.node_evaluations))
          (length rule.status.node_evaluations))) [
            | inl full ↦ rw full refl
            | inr short ↦ rw short (
                Retried_inv c (prune_attempt c nodes rule.name) (λ v. SameNode v w)
                  (λ v h.
                    fresh_same nodes (c.get_rule rule.name v)
                    ∙ calls.get_rule_nodes rule.name n v
                    ∙ h)
                  _ w (retries (prune_attempt c nodes rule.name) w) refl)
          ]

  -- So does the pruning.
  pub cleanup_deleted_nodes_node :
      (rule : NodeReadinessRule) (w : W) → SameNode (cleanup_deleted_nodes c rule w).1 w
  unfolding cleanup_deleted_nodes
  cleanup_deleted_nodes_node rule w = listed_same rule (c.list_nodes w) ∙ calls.list_nodes_nodes n w
