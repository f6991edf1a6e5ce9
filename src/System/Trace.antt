-- ===== src/System/Trace.antt =====
-- What the controller writes: the calls of the client that its operations make.
use node_readiness_controlle.Prelude.{
  String, Bool, true, false, List, [], contains_key, Option, none, some, ◌≡◌, refl, subst,
  if◌then◌else◌, Bool-cases, inl, inr,
}
use node_readiness_controlle.Api.{
  Taint, Node, NodeReadinessRule, NodeReadinessRuleStatus, ConditionEvaluationResult,
}
use node_readiness_controlle.Platform.{Error, Result, ok, err, Client}
use node_readiness_controlle.Platform.Laws.{RetryLaw}
use node_readiness_controlle.Platform.Retry.{Retried_inv}
use node_readiness_controlle.NodeController.Taints.{
  with_taint, without_taint, after_patch, add_taint_by_spec, remove_taint_by_spec,
  has_taint_by_spec,
}
use node_readiness_controlle.NodeController.Bootstrap.{
  annotation_key, mark, to_unit, mark_read, mark_attempt, mark_bootstrap_completed,
}
use node_readiness_controlle.RuleController.Finalizer.{
  finalizer_name, add_finalizer, remove_finalizer,
}
use node_readiness_controlle.RuleController.Evaluate.{
  after_removal, after_addition, act, evaluate_conditions, evaluate_rule_for_node,
}

module _ {W S : Type 0} (c : Client W S) (IsManaged : Taint → Type 0) where
  -- The worlds that a sequence of allowed calls leads to: reads; the patch that adds or removes
  -- one managed taint of a node; the update of a node just read that adds the completion annotation; the
  -- update of a rule with a managed taint whose finalizer was added or removed; and the update of a rule just read with
  -- another status.
  pub data Trace (start : W) : W → Type 0 where
    nothing : Trace start start
    get_rule_call : (n : String) {w : W} → Trace start w → Trace start (c.get_rule n w).1
    list_nodes_call : {w : W} → Trace start w → Trace start (c.list_nodes w).1
    get_node_call : (n : String) {w : W} → Trace start w → Trace start (c.get_node n w).1
    add_taint_call :
        (node : Node) (spec : Taint) {w : W}
        → IsManaged spec
        → Trace start w
        → Trace start (c.patch_node node (with_taint node spec) w).1
    remove_taint_call :
        (node : Node) (spec : Taint) {w : W}
        → IsManaged spec
        → Trace start w
        → Trace start (c.patch_node node (without_taint node spec) w).1
    mark_call :
        (n rule_name : String) {node : Node} {v w : W}
        → Trace start v
        → c.get_node n v ≡ (ok node, w)
        → Trace start (c.update_node (mark (annotation_key rule_name) node) w).1
    add_finalizer_call :
        (rule : NodeReadinessRule) {w : W}
        → IsManaged rule.spec.taint
        → Trace start w
        → Trace start (c.update_rule (add_finalizer rule finalizer_name) w).1
    remove_finalizer_call :
        (rule : NodeReadinessRule) {w : W}
        → IsManaged rule.spec.taint
        → Trace start w
        → Trace start (c.update_rule (remove_finalizer rule finalizer_name) w).1
    status_call :
        (n : String) (status : NodeReadinessRuleStatus) {latest : NodeReadinessRule} {v w : W}
        → Trace start v
        → c.get_rule n v ≡ (ok latest, w)
        → Trace start (c.update_rule_status (record latest { status = status }) w).1

  module _ (start : W) where
    -- The call keeps to the allowed ones.
    abbrev pub IsTraced : {A : Type 0} → (W → A × W) → Type 0
    IsTraced f = (w : W) → Trace start w → Trace start (f w).1

    pub to_unit-Trace :
        {A : Type 0} (p : Result A × W) → Trace start p.1 → Trace start (to_unit p).1
    to_unit-Trace (ok a, w) t = t
    to_unit-Trace (err e, w) t = t

    patched-Trace :
        (node : Node) (p : Result Node × W) → Trace start p.1 → Trace start (after_patch node p).2
    patched-Trace node (ok fresh, w) t = t
    patched-Trace node (err e, w) t = t

    pub remove_taint-Trace :
        (node : Node) (spec : Taint) (w : W)
        → IsManaged spec
        → Trace start w
        → Trace start (remove_taint_by_spec c node spec w).2
    unfolding remove_taint_by_spec
    remove_taint-Trace node spec w m t = patched-Trace _ _ (remove_taint_call node spec m t)

    pub add_taint-Trace :
        (node : Node) (spec : Taint) (w : W)
        → IsManaged spec
        → Trace start w
        → Trace start (add_taint_by_spec c node spec w).2
    unfolding add_taint_by_spec
    add_taint-Trace node spec w m t = patched-Trace _ _ (add_taint_call node spec m t)

    pub if-Trace :
        (b : Bool) {v w : W} → Trace start v → Trace start w → Trace start (if b then v else w)
    if-Trace true s t = s
    if-Trace false s t = t

    mark_read-Trace :
        (n rule_name : String) (v : W) (p : Result Node × W)
        → c.get_node n v ≡ p
        → Trace start v
        → Trace start (mark_read c (annotation_key rule_name) p).1
    mark_read-Trace n rule_name v (err e, w) q t =
        subst (λ o. Trace start o.1) q (get_node_call n t)
    mark_read-Trace n rule_name v (ok node, w) q t =
        elim (Bool-cases (contains_key (annotation_key rule_name) node.annotations)) [
          | inl there ↦ rw there (subst (λ o. Trace start o.1) q (get_node_call n t))
          | inr missing ↦ rw missing (to_unit-Trace _ (mark_call n rule_name t q))
        ]

    module _ (retries : RetryLaw c) where
      pub mark-Trace :
          (n rule_name : String) (w : W)
          → Trace start w
          → Trace start (mark_bootstrap_completed c n rule_name w)
      unfolding mark_bootstrap_completed mark_attempt
      mark-Trace n rule_name w t =
          Retried_inv c (mark_attempt c n rule_name) (Trace start)
            (λ v h. mark_read-Trace n rule_name v _ refl h) _ w
            (retries (mark_attempt c n rule_name) w) t

      removal-Trace :
          (rule : NodeReadinessRule) (results : List ConditionEvaluationResult)
          (p : Node × Option Error × W)
          → Trace start p.2
          → Trace start (after_removal c rule results p).3
      removal-Trace rule results (node, some e, w) t = t
      removal-Trace rule results (node, none, w) t =
          if-Trace _ (mark-Trace node.name rule.name w t) t

      addition-Trace :
          (rule : NodeReadinessRule) (results : List ConditionEvaluationResult)
          (p : Node × Option Error × W)
          → Trace start p.2
          → Trace start (after_addition c rule results p).3
      addition-Trace rule results (node, some e, w) t = t
      addition-Trace rule results (node, none, w) t = t

      act-Trace :
          (rule : NodeReadinessRule) (node : Node) (b has : Bool)
          (results : List ConditionEvaluationResult) (w : W)
          → IsManaged rule.spec.taint
          → Trace start w
          → Trace start (act c rule node b has results w).3
      act-Trace rule node true true results w m t =
          removal-Trace rule results _ (remove_taint-Trace node rule.spec.taint w m t)
      act-Trace rule node true false results w m t = t
      act-Trace rule node false true results w m t = t
      act-Trace rule node false false results w m t =
          addition-Trace rule results _ (add_taint-Trace node rule.spec.taint w m t)

      -- An evaluation makes only allowed calls.
      pub evaluate-Trace :
          (rule : NodeReadinessRule) (node : Node) (w : W)
          → IsManaged rule.spec.taint
          → Trace start w
          → Trace start (evaluate_rule_for_node c rule node w).3
      unfolding evaluate_rule_for_node
      evaluate-Trace rule node w m t =
          let (met, results) = evaluate_conditions node rule.spec.conditions true [] in
          act-Trace rule node met (has_taint_by_spec node rule.spec.taint) results w m t
