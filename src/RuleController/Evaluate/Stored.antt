-- ===== src/RuleController/Evaluate/Stored.antt =====
-- About evaluateRuleForNode: the nodes on the server after it.
use node_readiness_controlle.Prelude.{
  String, Bool, true, false, not, Option, none, some, ◌≡◌, ◌≢◌, refl, ap, ◌∙◌, sym, if◌then◌else◌,
  ◌==◌,
}
use node_readiness_controlle.Api.{Node, NodeReadinessRule, bootstrap_only}
use node_readiness_controlle.Platform.{Error, ok, Client}
use node_readiness_controlle.Platform.Laws.{PatchLaw, RetryLaw, TaintStoreLaw, NodeWriteLaw}
use node_readiness_controlle.NodeController.Taints.{has_taint_by_spec}
use node_readiness_controlle.NodeController.Taints.Laws.{remove_taint_name, other_taints}
use node_readiness_controlle.NodeController.Taints.Stored.{
  read_taint, taint_view, remove_taint_view, add_taint_view, remove_taint_others, add_taint_others,
  remove_taint_others_view, add_taint_others_view, read_node, read_others, others_view, IsOfTaints,
  has_taint-IsOfTaints, other_taints-IsOfTaints,
}
use node_readiness_controlle.NodeController.Bootstrap.{mark_bootstrap_completed}
use node_readiness_controlle.NodeController.Bootstrap.Taints.{
  view-mark_bootstrap_completed, mark_bootstrap_completed_others,
}
use node_readiness_controlle.RuleController.Evaluate.{
  after_removal, after_addition, act, evaluate_rule_for_node,
}
use node_readiness_controlle.RuleController.Evaluate.Conditions.{meets_all}
use node_readiness_controlle.RuleController.Evaluate.Outcome.{results, evaluate_lem}

-- No other writer is at work on the nodes.
pub record NodeLaws {W S : Type 0} (c : Client W S) : Type 0 where
  pub patches : PatchLaw c
  pub store : TaintStoreLaw c
  pub writes : NodeWriteLaw c
  pub retries : RetryLaw c

module _ {W S : Type 0} (c : Client W S) (laws : NodeLaws c) (rule : NodeReadinessRule)
    (node : Node) (w : W) where
  -- After the removal: the mark of a bootstrap rule, and the status.
  module _ {A : Type 0} (f : Node → A) (of_taints : IsOfTaints f) where
    marked :
        (b : Bool) (m : String) (v : W)
        → read_node f
            (c.get_node node.name (if b then mark_bootstrap_completed c m rule.name v else v)).0
          ≡ read_node f (c.get_node node.name v).0
    marked true m v =
        view-mark_bootstrap_completed c f of_taints laws.writes m rule.name node.name laws.retries v
    marked false m v = refl

    removal_view :
        (p : Node × Option Error × W)
        → (after_removal c rule (results c rule node w) p).2 ≡ none
        → read_node f (c.get_node node.name (after_removal c rule (results c rule node w) p).3).0
          ≡ read_node f (c.get_node node.name p.2).0
    removal_view (m, some e, v) done = cc
    removal_view (m, none, v) done = marked (rule.spec.enforcement_mode == bootstrap_only) m.name v

  marked_others :
      (b : Bool) (m n : String) (v : W)
      → m ≢ n
      → (c.get_node n (if b then mark_bootstrap_completed c m rule.name v else v)).0
        ≡ (c.get_node n v).0
  marked_others true m n v apart =
      mark_bootstrap_completed_others c laws.writes m rule.name n apart laws.retries v
  marked_others false m n v apart = refl

  removal_done :
      (p : Node × Option Error × W)
      → (after_removal c rule (results c rule node w) p).2 ≡ none
      → p.1 ≡ none
  removal_done (m, some e, v) done = cc
  removal_done (m, none, v) done = refl

  addition_done :
      (p : Node × Option Error × W)
      → (after_addition c rule (results c rule node w) p).2 ≡ none
      → p.1 ≡ none
  addition_done (m, some e, v) done = cc
  addition_done (m, none, v) done = refl

  addition_world :
      (p : Node × Option Error × W) → (after_addition c rule (results c rule node w) p).3 ≡ p.2
  addition_world (m, some e, v) = refl
  addition_world (m, none, v) = refl

  act_view :
      (c.get_node node.name w).0 ≡ ok node
      → (b has : Bool) → has_taint_by_spec node rule.spec.taint ≡ has
      → (act c rule node b has (results c rule node w) w).2 ≡ none
      → taint_view c rule.spec.taint node.name (act c rule node b has (results c rule node w) w).3
        ≡ some (not b)
  act_view current true true had done =
      removal_view (λ m. has_taint_by_spec m rule.spec.taint) (has_taint-IsOfTaints rule.spec.taint)
        _ done
      ∙ remove_taint_view c laws.patches laws.store rule.spec.taint node w had (removal_done _ done)
  act_view current true false had done = ap (read_taint rule.spec.taint) current ∙ ap some had
  act_view current false true had done = ap (read_taint rule.spec.taint) current ∙ ap some had
  act_view current false false had done =
      ap (taint_view c rule.spec.taint node.name) (addition_world _)
      ∙ add_taint_view c laws.patches laws.store rule.spec.taint node w had (addition_done _ done)

  -- An evaluation that reports no error leaves the stored node with the taint exactly when it
  -- misses a requirement.
  pub evaluate_view :
      (c.get_node node.name w).0 ≡ ok node
      → (evaluate_rule_for_node c rule node w).2 ≡ none
      → taint_view c rule.spec.taint node.name (evaluate_rule_for_node c rule node w).3
        ≡ some (not (meets_all node rule.spec.conditions))
  evaluate_view current =
      rw (evaluate_lem c rule node w)
        (act_view current (meets_all node rule.spec.conditions) _ refl)

  others_view-act :
      (c.get_node node.name w).0 ≡ ok node
      → (b has : Bool) → has_taint_by_spec node rule.spec.taint ≡ has
      → (act c rule node b has (results c rule node w) w).2 ≡ none
      → others_view c rule.spec.taint node.name (act c rule node b has (results c rule node w) w).3
        ≡ some (other_taints rule.spec.taint node.taints)
  others_view-act current true true had done =
      removal_view (λ m. other_taints rule.spec.taint m.taints)
        (other_taints-IsOfTaints rule.spec.taint) _ done
      ∙ remove_taint_others_view c laws.patches laws.store rule.spec.taint node w had
          (removal_done _ done)
  others_view-act current true false had done = ap (read_others rule.spec.taint) current
  others_view-act current false true had done = ap (read_others rule.spec.taint) current
  others_view-act current false false had done =
      ap (others_view c rule.spec.taint node.name) (addition_world _)
      ∙ add_taint_others_view c laws.patches laws.store rule.spec.taint node w had
          (addition_done _ done)

  -- It leaves the taints of another key or another effect on the node as they were.
  pub evaluate_foreign :
      (c.get_node node.name w).0 ≡ ok node
      → (evaluate_rule_for_node c rule node w).2 ≡ none
      → others_view c rule.spec.taint node.name (evaluate_rule_for_node c rule node w).3
        ≡ others_view c rule.spec.taint node.name w
  evaluate_foreign current = rw (evaluate_lem c rule node w) (λ done.
      others_view-act current (meets_all node rule.spec.conditions) _ refl done
      ∙ sym (ap (read_others rule.spec.taint) current))

  removal_others :
      (n : String) (p : Node × Option Error × W)
      → p.0.name ≢ n
      → (c.get_node n (after_removal c rule (results c rule node w) p).3).0 ≡ (c.get_node n p.2).0
  removal_others n (m, some e, v) apart = refl
  removal_others n (m, none, v) apart =
      marked_others (rule.spec.enforcement_mode == bootstrap_only) m.name n v apart

  act_others :
      (n : String)
      → node.name ≢ n
      → (b has : Bool) → has_taint_by_spec node rule.spec.taint ≡ has
      → (c.get_node n (act c rule node b has (results c rule node w) w).3).0 ≡ (c.get_node n w).0
  act_others n apart true true had =
      removal_others n _
        (λ e. apart (sym (remove_taint_name c laws.patches node rule.spec.taint w had) ∙ e))
      ∙ remove_taint_others c laws.patches laws.store rule.spec.taint node w n apart
  act_others n apart true false had = refl
  act_others n apart false true had = refl
  act_others n apart false false had =
      ap (λ v. (c.get_node n v).0) (addition_world _)
      ∙ add_taint_others c laws.patches laws.store rule.spec.taint node w n apart

  -- An evaluation leaves every other node on the server as it was, whatever its outcome.
  pub evaluate_others :
      (n : String)
      → node.name ≢ n
      → (c.get_node n (evaluate_rule_for_node c rule node w).3).0 ≡ (c.get_node n w).0
  evaluate_others n apart =
      rw (evaluate_lem c rule node w)
        (act_others n apart (meets_all node rule.spec.conditions) _ refl)
