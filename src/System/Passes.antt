-- ===== src/System/Passes.antt =====
-- About the two Reconcile methods: every call that they make is one of the allowed calls.
use node_readiness_controlle.Prelude.{
  String, Bool, List, sym, [], ◌∷◌, ◌++◌, ◌≡◌, refl, subst, Bool-cases, inl, inr, ◌&&◌, length,
  nat_eq,
}
use node_readiness_controlle.Api.{Taint, Node, NodeReadinessRule}
use node_readiness_controlle.Platform.{Result, ok, err, Client}
use node_readiness_controlle.Platform.Laws.{RetryLaw}
use node_readiness_controlle.Platform.Retry.{Retried_inv}
use node_readiness_controlle.NodeController.Taints.{has_taint_by_spec, remove_taint_by_spec}
use node_readiness_controlle.NodeController.Bootstrap.{has_annotation}
use node_readiness_controlle.NodeController.Process.{
  has_evaluation, merge_node, persist_latest, persist_attempt,
}
use node_readiness_controlle.RuleController.Cache.{rule_applies_to}
use node_readiness_controlle.RuleController.Evaluate.{evaluate_rule_for_node}
use node_readiness_controlle.RuleController.Process.{
  note_failure, process_nodes, process_listed, process_all_nodes_for_rule,
}
use node_readiness_controlle.RuleController.Process.Laws.{evaluated_keeps}
use node_readiness_controlle.RuleController.DryRun.{dry_run_listed, process_dry_run}
use node_readiness_controlle.RuleController.Persist.{
  merge_status, merge_latest, status_attempt, update_rule_status,
}
use node_readiness_controlle.RuleController.Cleanup.{
  note_error, remove_taints, cleanup_listed, cleanup_taints_for_rule, left_behind,
  cleanup_left_behind, cleanup_change_listed, cleanup_nodes_after_selector_change,
  existing_evaluations, prune_fresh, prune_attempt, prune_listed, cleanup_deleted_nodes,
}
use node_readiness_controlle.System.Trace.{
  Trace, get_rule_call, list_nodes_call, status_call, to_unit-Trace, remove_taint-Trace,
  evaluate-Trace, IsTraced,
}

module _ {W S : Type 0} (c : Client W S) (IsManaged : Taint → Type 0) (start : W)
    (retries : RetryLaw c) where
  process_nodes-Trace :
      (rule : NodeReadinessRule) (nodes : List Node) (applied : List String) (w : W)
      → IsManaged rule.spec.taint
      → Trace c IsManaged start w
      → Trace c IsManaged start (process_nodes c rule nodes applied w).2
  unfolding process_nodes
  process_nodes-Trace rule [] applied w m t = t
  process_nodes-Trace rule (node ∷ rest) applied w m t =
      let evaluated = evaluate_rule_for_node c rule node w in
      elim (Bool-cases (rule_applies_to c rule node)) [
        | inl e ↦ rw e (
            process_nodes-Trace (note_failure c evaluated) rest (applied ++ node.name ∷ [])
              evaluated.3 (subst (λ x. IsManaged x.taint) (sym (evaluated_keeps c rule node w).0) m)
              (evaluate-Trace c IsManaged start retries rule node w m t))
        | inr e ↦ rw e (process_nodes-Trace rule rest applied w m t)
      ]

  listed-Trace :
      (rule : NodeReadinessRule) (p : Result (List Node) × W)
      → IsManaged rule.spec.taint
      → Trace c IsManaged start p.1
      → Trace c IsManaged start (process_listed c rule p).1
  listed-Trace rule (ok nodes, w) m t = process_nodes-Trace rule nodes [] w m t
  listed-Trace rule (err e, w) m t = t

  pub process_all_nodes-Trace :
      (rule : NodeReadinessRule)
      → IsManaged rule.spec.taint
      → IsTraced c IsManaged start (process_all_nodes_for_rule c rule)
  unfolding process_all_nodes_for_rule
  process_all_nodes-Trace rule m w t = listed-Trace rule _ m (list_nodes_call t)

  dry_listed-Trace :
      (rule : NodeReadinessRule) (p : Result (List Node) × W)
      → Trace c IsManaged start p.1
      → Trace c IsManaged start (dry_run_listed c rule p).1
  dry_listed-Trace rule (ok nodes, w) t = t
  dry_listed-Trace rule (err e, w) t = t

  pub process_dry_run-Trace :
      (rule : NodeReadinessRule) → IsTraced c IsManaged start (process_dry_run c rule)
  unfolding process_dry_run
  process_dry_run-Trace rule w t = dry_listed-Trace rule _ (list_nodes_call t)

  -- The world after a read of a rule.
  read-Trace :
      (n : String) (v : W) {r : Result NodeReadinessRule} {w : W}
      → c.get_rule n v ≡ (r, w)
      → Trace c IsManaged start v
      → Trace c IsManaged start w
  read-Trace n v q t = subst (λ o. Trace c IsManaged start o.1) q (get_rule_call n t)

  merge-Trace :
      (rule : NodeReadinessRule) (v : W) (p : Result NodeReadinessRule × W)
      → c.get_rule rule.name v ≡ p
      → Trace c IsManaged start v
      → Trace c IsManaged start (merge_latest c rule p).1
  unfolding merge_status
  merge-Trace rule v (err e, w) q t = read-Trace rule.name v q t
  merge-Trace rule v (ok latest, w) q t =
      to_unit-Trace c IsManaged start _ (status_call rule.name _ t q)

  pub update_rule_status-Trace :
      (rule : NodeReadinessRule) → IsTraced c IsManaged start (update_rule_status c rule)
  unfolding update_rule_status status_attempt
  update_rule_status-Trace rule w t =
      Retried_inv c (status_attempt c rule) (Trace c IsManaged start)
        (λ v h. merge-Trace rule v _ refl h) _ w (retries (status_attempt c rule) w) t

  remove_taints-Trace :
      (chosen : Node → Bool) (spec : Taint) (nodes : List Node) (errors : List String) (w : W)
      → IsManaged spec
      → Trace c IsManaged start w
      → Trace c IsManaged start (remove_taints c chosen spec nodes errors w).1
  unfolding remove_taints
  remove_taints-Trace chosen spec [] errors w m t = t
  remove_taints-Trace chosen spec (node ∷ rest) errors w m t =
      let removed = remove_taint_by_spec c node spec w in
      elim (Bool-cases (chosen node && has_taint_by_spec node spec)) [
        | inl e ↦ rw e (
            remove_taints-Trace chosen spec rest (note_error errors removed) removed.2 m
              (remove_taint-Trace c IsManaged start node spec w m t))
        | inr e ↦ rw e (remove_taints-Trace chosen spec rest errors w m t)
      ]

  cleaned-Trace :
      (rule : NodeReadinessRule) (p : Result (List Node) × W)
      → IsManaged rule.spec.taint
      → Trace c IsManaged start p.1
      → Trace c IsManaged start (cleanup_listed c rule p).1
  cleaned-Trace rule (err e, w) m t = t
  cleaned-Trace rule (ok nodes, w) m t =
      remove_taints-Trace (rule_applies_to c rule) rule.spec.taint nodes [] w m t

  pub cleanup_taints-Trace :
      (rule : NodeReadinessRule)
      → IsManaged rule.spec.taint
      → IsTraced c IsManaged start (cleanup_taints_for_rule c rule)
  unfolding cleanup_taints_for_rule
  cleanup_taints-Trace rule m w t = cleaned-Trace rule _ m (list_nodes_call t)

  left_behind-Trace :
      (r : Result S) (rule : NodeReadinessRule) (nodes : List Node) (w : W)
      → IsManaged rule.spec.taint
      → Trace c IsManaged start w
      → Trace c IsManaged start (cleanup_left_behind c r rule nodes w).1
  left_behind-Trace (err e) rule nodes w m t = t
  left_behind-Trace (ok selector) rule nodes w m t =
      remove_taints-Trace (left_behind c selector rule) rule.spec.taint nodes [] w m t

  changed-Trace :
      (old_rule rule : NodeReadinessRule) (p : Result (List Node) × W)
      → IsManaged rule.spec.taint
      → Trace c IsManaged start p.1
      → Trace c IsManaged start (cleanup_change_listed c old_rule rule p).1
  changed-Trace old_rule rule (err e, w) m t = t
  changed-Trace old_rule rule (ok nodes, w) m t = left_behind-Trace _ rule nodes w m t

  pub cleanup_change-Trace :
      (old_rule rule : NodeReadinessRule)
      → IsManaged rule.spec.taint
      → IsTraced c IsManaged start (cleanup_nodes_after_selector_change c old_rule rule)
  unfolding cleanup_nodes_after_selector_change
  cleanup_change-Trace old_rule rule m w t = changed-Trace old_rule rule _ m (list_nodes_call t)

  fresh-Trace :
      (n : String) (nodes : List Node) (v : W) (p : Result NodeReadinessRule × W)
      → c.get_rule n v ≡ p
      → Trace c IsManaged start v
      → Trace c IsManaged start (prune_fresh c nodes p).1
  fresh-Trace n nodes v (err e, w) q t = read-Trace n v q t
  fresh-Trace n nodes v (ok fresh, w) q t =
      elim (Bool-cases (
        nat_eq (length (existing_evaluations nodes fresh.status.node_evaluations))
          (length fresh.status.node_evaluations))) [
            | inl full ↦ rw full (read-Trace n v q t)
            | inr short ↦ rw short (to_unit-Trace c IsManaged start _ (status_call n _ t q))
          ]

  pruned-Trace :
      (rule : NodeReadinessRule) (p : Result (List Node) × W)
      → Trace c IsManaged start p.1
      → Trace c IsManaged start (prune_listed c rule p).1
  unfolding prune_attempt
  pruned-Trace rule (err e, w) t = t
  pruned-Trace rule (ok nodes, w) t =
      elim (Bool-cases (
        nat_eq (length (existing_evaluations nodes rule.status.node_evaluations))
          (length rule.status.node_evaluations))) [
            | inl full ↦ rw full t
            | inr short ↦ rw short (
                Retried_inv c (prune_attempt c nodes rule.name) (Trace c IsManaged start)
                  (λ v h. fresh-Trace rule.name nodes v (c.get_rule rule.name v) refl h) _ w
                  (retries (prune_attempt c nodes rule.name) w) t)
          ]

  pub cleanup_deleted-Trace :
      (rule : NodeReadinessRule) → IsTraced c IsManaged start (cleanup_deleted_nodes c rule)
  unfolding cleanup_deleted_nodes
  cleanup_deleted-Trace rule w t = pruned-Trace rule _ (list_nodes_call t)

  pub annotation-Trace :
      (key : String) (p : Result Node × W)
      → Trace c IsManaged start p.1
      → Trace c IsManaged start (has_annotation c key p).1
  annotation-Trace key (ok node, w) t = t
  annotation-Trace key (err e, w) t = t

  persisted-Trace :
      (n : String) (rule : NodeReadinessRule) (v : W) (p : Result NodeReadinessRule × W)
      → c.get_rule rule.name v ≡ p
      → Trace c IsManaged start v
      → Trace c IsManaged start (persist_latest c n rule p).1
  unfolding merge_node
  persisted-Trace n rule v (err e, w) q t = read-Trace rule.name v q t
  persisted-Trace n rule v (ok latest, w) q t =
      elim (Bool-cases (has_evaluation n latest.status.node_evaluations)) [
        | inl found ↦ rw found (to_unit-Trace c IsManaged start _ (status_call rule.name _ t q))
        | inr new ↦ rw new (read-Trace rule.name v q t)
      ]

  pub persist-Trace :
      (n : String) (rule : NodeReadinessRule) (w : W)
      → Trace c IsManaged start w
      → Trace c IsManaged start (c.retry_on_conflict (persist_attempt c n rule) w).1
  unfolding persist_attempt
  persist-Trace n rule w t =
      Retried_inv c (persist_attempt c n rule) (Trace c IsManaged start)
        (λ v h. persisted-Trace n rule v _ refl h) _ w (retries (persist_attempt c n rule) w) t
