-- ===== src/System/Writes.antt =====
-- About the two Reconcile methods as a whole: the calls that they make, and what such calls keep.
use node_readiness_controlle.Prelude.{
  String, Bool, List, [], All, ◌≡◌, refl, ◌∷◌, ◌&&◌, ◌||◌, ◌==◌, Bool-cases, inl, inr,
}
use node_readiness_controlle.Api.{Taint, Node, NodeReadinessRule, bootstrap_only}
use node_readiness_controlle.Platform.{Result, ok, err, Client}
use node_readiness_controlle.Platform.Laws.{RetryLaw}
use node_readiness_controlle.NodeController.Bootstrap.{is_bootstrap_completed}
use node_readiness_controlle.NodeController.Process.{
  Run, process_unless_skipped, process_rule, process_rules, process_node_against_all_rules,
  reconcile_fetched,
}
use node_readiness_controlle.NodeController.Process.{reconcile as reconcile_node}
use node_readiness_controlle.RuleController.Cache.{Controller, get_applicable_rules_for_node}
use node_readiness_controlle.RuleController.Evaluate.{evaluate_rule_for_node}
use node_readiness_controlle.RuleController.Process.{note_failure}
use node_readiness_controlle.RuleController.Reconcile.{State, reconcile as reconcile_rule}
use node_readiness_controlle.RuleController.Reconcile.Actions.{PassRules, OnOk}
use node_readiness_controlle.RuleController.Reconcile.Keeps.{reconcile_keeps}
use node_readiness_controlle.System.{after_node}
use node_readiness_controlle.System.Trace.{
  Trace, nothing, get_rule_call, get_node_call, add_finalizer_call, remove_finalizer_call,
  evaluate-Trace,
}
use node_readiness_controlle.System.Passes.{
  process_all_nodes-Trace, process_dry_run-Trace, update_rule_status-Trace, cleanup_taints-Trace,
  cleanup_change-Trace, cleanup_deleted-Trace, annotation-Trace, persist-Trace,
}

module _ {W S : Type 0} (c : Client W S) (IsManaged : Taint → Type 0) where
  -- Every rule of the cache that applies to a node manages such a taint.
  abbrev pub ManagesTaints : Controller → Type 0
  ManagesTaints r =
      (node : Node) (w : W)
      → All (λ rule. IsManaged rule.spec.taint) (get_applicable_rules_for_node c node r w)

module _ {W S : Type 0} (c : Client W S) (IsManaged : Taint → Type 0) (retries : RetryLaw c) where
  module _ (start : W)
      (served : (n : String) (v w : W) (rule : NodeReadinessRule)
        → Trace c IsManaged start v
        → c.get_rule n v ≡ (ok rule, w)
        → IsManaged rule.spec.taint) where
    abbrev IsTraceWorld : State W → Type 0
    IsTraceWorld s = Trace c IsManaged start s.world

    abbrev IsManagedRule : NodeReadinessRule → Type 0
    IsManagedRule rule = IsManaged rule.spec.taint

    read_managed :
        (n : String) (v : W) (p : Result NodeReadinessRule × W)
        → c.get_rule n v ≡ p
        → Trace c IsManaged start v
        → OnOk c IsTraceWorld IsManagedRule IsManagedRule p.0
    read_managed n v (ok rule, w) q t = served n v w rule t q
    read_managed n v (err e, w) q t = tt

    pass_rules : PassRules c IsTraceWorld IsManagedRule
    pass_rules = record {
      cached = λ rule s t. t;
      uncached = λ name s t. t;
      got = λ name s t. get_rule_call name t;
      got_good = λ name s t. read_managed name s.world _ refl t;
      finalizer_added = λ rule m s t. add_finalizer_call rule m t;
      finalizer_removed = λ rule m s t. remove_finalizer_call rule m t;
      cleaned = λ rule m s t. cleanup_taints-Trace c IsManaged start retries rule m s.world t;
      selector_cleaned = λ old_rule rule m s t.
          cleanup_change-Trace c IsManaged start retries old_rule rule m s.world t;
      dry_run_done = λ rule s t. process_dry_run-Trace c IsManaged start retries rule s.world t;
      processed = λ rule m s t. process_all_nodes-Trace c IsManaged start retries _ m s.world t;
      saved = λ rule s t. update_rule_status-Trace c IsManaged start retries rule s.world t;
      pruned = λ rule s t. cleanup_deleted-Trace c IsManaged start retries rule s.world t;
    }

  -- For any set of taints, and with a retry that calls again only after a conflict: if every rule
  -- that the server gives, in a world that allowed calls lead to, manages a taint of the set,
  -- then the calls of a pass over a rule, whatever its outcome, are allowed. Those are reads of
  -- rules and nodes, patches that add or remove one taint of the set on a node, updates of a node
  -- just read that add a completion annotation, updates of a rule with a taint of the set whose
  -- finalizer was added or removed, and updates of a rule just read with another status. No other
  -- write reaches the server.
  pub reconcile_rule-Trace :
      (name : String) (s : State W)
      → ((n : String) (v w : W) (rule : NodeReadinessRule)
          → Trace c IsManaged s.world v
          → c.get_rule n v ≡ (ok rule, w)
          → IsManaged rule.spec.taint)
      → Trace c IsManaged s.world (reconcile_rule c name s).1.world
  reconcile_rule-Trace name s served =
      reconcile_keeps c (IsTraceWorld s.world served) (IsManagedRule s.world served)
        (pass_rules s.world served) name s nothing

  module _ (start : W) where
    unless_skipped-Trace :
        (rule : NodeReadinessRule) (node : Node) (r : Controller) (p : Bool × W)
        → IsManaged rule.spec.taint
        → Trace c IsManaged start p.1
        → Trace c IsManaged start (process_unless_skipped c rule node r p).world
    unless_skipped-Trace rule node r (completed, w) m t =
        let evaluated = evaluate_rule_for_node c rule node w in
        elim (Bool-cases (completed && rule.spec.enforcement_mode == bootstrap_only)) [
          | inl over ↦ rw over t
          | inr open_ ↦ elim (Bool-cases (rule.spec.dry_run || r.global_dry_run)) [
            | inl dry ↦ rw (open_, dry) t
            | inr real ↦
                rw (open_, real)
                  (persist-Trace c IsManaged start retries evaluated.1.name
                    (note_failure c evaluated) evaluated.3
                    (evaluate-Trace c IsManaged start retries rule node w m t))
          ]
        ]

    process_rule-Trace :
        (rule : NodeReadinessRule) (run : Run W)
        → IsManaged rule.spec.taint
        → Trace c IsManaged start run.world
        → Trace c IsManaged start (process_rule c rule run).world
    unfolding process_rule is_bootstrap_completed
    process_rule-Trace rule run m t =
        unless_skipped-Trace rule run.node run.controller _ m
          (annotation-Trace c IsManaged start retries _ _ (get_node_call run.node.name t))

    process_rules-Trace :
        (rules : List NodeReadinessRule) (run : Run W)
        → All (λ rule. IsManaged rule.spec.taint) rules
        → Trace c IsManaged start run.world
        → Trace c IsManaged start (process_rules c rules run).world
    unfolding process_rules
    process_rules-Trace [] run m t = t
    process_rules-Trace (rule ∷ rest) run m t =
        process_rules-Trace rest (process_rule c rule run) m.1 (process_rule-Trace rule run m.0 t)

    fetched-Trace :
        (r : Controller) (p : Result Node × W)
        → ManagesTaints c IsManaged r
        → Trace c IsManaged start p.1
        → Trace c IsManaged start (reconcile_fetched c r p).2
    unfolding process_node_against_all_rules
    fetched-Trace r (err e, w) m t = t
    fetched-Trace r (ok node, w) m t =
        process_rules-Trace (get_applicable_rules_for_node c node r w)
          (record { node = node; controller = r; world = w }) (m node w) t

  -- For any set of taints, and with a retry that calls again only after a conflict: if every
  -- cached rule that applies to a node manages a taint of the set, then the calls that a change
  -- of a node leads to, whatever their outcome, are likewise only reads of rules and nodes,
  -- patches that add or remove one taint of the set on a node, updates of a node just read that
  -- add a completion annotation, updates of a rule with a taint of the set whose finalizer was
  -- added or removed, and updates of a rule just read with another status.
  pub reconcile_node-Trace :
      (name : String) (s : State W)
      → ManagesTaints c IsManaged s.controller
      → Trace c IsManaged s.world (after_node c name s).world
  unfolding reconcile_node
  reconcile_node-Trace name s m =
      fetched-Trace s.world s.controller (c.get_node name s.world) m (get_node_call name nothing)
