-- ===== src/NodeController/Process/Skips.antt =====
-- About the two tests of processNodeAgainstAllRules that pass over a rule, and its cache.
use node_readiness_controlle.Prelude.{
  String, true, List, [], ◌∷◌, ◌≡◌, ◌⊎◌, inl, inr, refl, ap, ◌∙◌, arith, eq_iff,
}
use node_readiness_controlle.Api.{Node, NodeReadinessRule, bootstrap_only}
use node_readiness_controlle.Platform.{Result, ok, err, Client}
use node_readiness_controlle.Platform.Laws.{ReadLaw}
use node_readiness_controlle.NodeController.Bootstrap.{is_bootstrap_completed, has_annotation}
use node_readiness_controlle.RuleController.Cache.Laws.{IsValid, update_rule_cache-IsValid}
use node_readiness_controlle.RuleController.Process.{note_failure}
use node_readiness_controlle.RuleController.Evaluate.{evaluate_rule_for_node}
use node_readiness_controlle.NodeController.Process.{
  Run, process_rule, process_rules, process_node_against_all_rules,
}

module _ {W S : Type 0} (c : Client W S) where
  has_annotation_world : (key : String) (p : Result Node × W) → (has_annotation c key p).1 ≡ p.1
  has_annotation_world key (ok node, w) = refl
  has_annotation_world key (err e, w) = refl

  completed_reads :
      ReadLaw c → (n rule_name : String) (w : W) → (is_bootstrap_completed c n rule_name w).1 ≡ w
  unfolding is_bootstrap_completed
  completed_reads reads n rule_name w =
      has_annotation_world _ (c.get_node n w) ∙ reads.get_node_reads n w

  -- The rule is in dry run, or all are; or it is a bootstrap rule that the node has completed.
  abbrev pub IsSkipped : NodeReadinessRule → Run W → Type 0
  IsSkipped rule run =
      ((rule.spec.dry_run ≡ true) ⊎ (run.controller.global_dry_run ≡ true))
      ⊎ ((rule.spec.enforcement_mode ≡ bootstrap_only)
          × ((is_bootstrap_completed c run.node.name rule.name run.world).0 ≡ true))

  -- Where reads leave the world as it is: a rule that is in dry run, or that is bootstrap-only
  -- and completed for the node, or any rule while the global switch is on, is passed over without
  -- any change.
  process_rule_skips :
      ReadLaw c
      → (rule : NodeReadinessRule) (run : Run W) → IsSkipped rule run
      → process_rule c rule run ≡ run
  unfolding process_rule
  process_rule_skips reads rule run h = ground (
    arith,
    completed_reads reads run.node.name rule.name run.world,
    eq_iff rule.spec.enforcement_mode bootstrap_only,
  )

  all_skipped :
      ReadLaw c
      → (rules : List NodeReadinessRule) (run : Run W) → run.controller.global_dry_run ≡ true
      → process_rules c rules run ≡ run
  unfolding process_rules
  all_skipped reads [] run h = refl
  all_skipped reads (rule ∷ rest) run h =
      ap (process_rules c rest) (process_rule_skips reads rule run (inl (inr h)))
      ∙ all_skipped reads rest run h

  -- Where reads leave the world as it is: with the global dry run switch on, a change of a node
  -- changes no node, no rule, no cache entry and nothing on the server.
  pub process_node_global_dry_run :
      ReadLaw c
      → (run : Run W) → run.controller.global_dry_run ≡ true
      → process_node_against_all_rules c run ≡ run
  unfolding process_node_against_all_rules
  process_node_global_dry_run reads run h = all_skipped reads _ run h

  -- One rule.
  process_rule-IsValid :
      (rule : NodeReadinessRule) (run : Run W)
      → IsValid run.controller
      → IsValid (process_rule c rule run).controller
  unfolding process_rule
  process_rule-IsValid rule run h = ground (
    arith,
    update_rule_cache-IsValid
        (note_failure c (
          evaluate_rule_for_node c rule run.node
            (is_bootstrap_completed c run.node.name rule.name run.world).1))
        run.controller h,
  )

  process_rules-IsValid :
      (rules : List NodeReadinessRule) (run : Run W)
      → IsValid run.controller
      → IsValid (process_rules c rules run).controller
  unfolding process_rules
  process_rules-IsValid [] run h = h
  process_rules-IsValid (rule ∷ rest) run h =
      process_rules-IsValid rest (process_rule c rule run) (process_rule-IsValid rule run h)

  -- If the cache is a map whose keys are the names of its rules, it is one after a change of a
  -- node has been processed.
  pub process_node-IsValid :
      (run : Run W)
      → IsValid run.controller
      → IsValid (process_node_against_all_rules c run).controller
  unfolding process_node_against_all_rules
  process_node-IsValid run h = process_rules-IsValid _ run h
