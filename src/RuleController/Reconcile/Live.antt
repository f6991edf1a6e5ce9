-- ===== src/RuleController/Reconcile/Live.antt =====
-- About RuleReconciler.Reconcile for a rule that is not being deleted: the taints on the server and
-- the status of the rule after it.
use node_readiness_controlle.Prelude.{
  String, true, false, List, Option, none, some, ◌≡◌, refl, ap, ◌∙◌, sym,
}
use node_readiness_controlle.Api.{Node, NodeReadinessRule, no_dry_run_results}
use node_readiness_controlle.Platform.{ok, Client}
use node_readiness_controlle.Platform.Laws.{RetryLaw, RuleCallLaw}
use node_readiness_controlle.RuleController.Persist.{update_rule_status}
use node_readiness_controlle.RuleController.Cleanup.{cleanup_deleted_nodes}
use node_readiness_controlle.RuleController.Cache.{
  rule_applies_to, Controller, get_cached_rule, update_rule_cache,
}
use node_readiness_controlle.RuleController.Selector.{node_selector_changed}
use node_readiness_controlle.RuleController.Finalizer.{finalizer_name, contains_finalizer}
use node_readiness_controlle.RuleController.DryRun.{with_dry_run_results}
use node_readiness_controlle.RuleController.Status.Laws.{find_failure}
use node_readiness_controlle.RuleController.Evaluate.Stored.{NodeLaws}
use node_readiness_controlle.NodeController.Taints.Stored.{
  read_taint, taint_view, read_others, others_view,
}
use node_readiness_controlle.RuleController.Process.{process_all_nodes_for_rule}
use node_readiness_controlle.RuleController.Process.Laws.{ok_injective}
use node_readiness_controlle.RuleController.Process.Refinement.{settled, process_all_nodes_refines}
use node_readiness_controlle.RuleController.Process.Foreign.{process_all_nodes_foreign}
use node_readiness_controlle.RuleController.Reconcile.{
  State, next, stop, no_requeue, in_a_minute, ◌>>=◌, ◌>>◌, call, proceed, done, fetched, fetch_rule,
  dispatch, ensure_finalizer, clean_old_selector, handle_selector_change, evaluate_nodes,
  save_results, manage_nodes, reconcile_live, reconcile,
}
use node_readiness_controlle.RuleController.Reconcile.Saving.{
  update_rule_status_node, cleanup_deleted_nodes_node,
}
use node_readiness_controlle.RuleController.Reconcile.Steps.{bind-next, call-done}

-- The status is cleared of dry run results before the pass.
abbrev pub cleared : NodeReadinessRule → NodeReadinessRule
cleared rule = with_dry_run_results rule no_dry_run_results

-- The cached version, where there is one, has the selector of the rule.
abbrev pub SelectorKept : NodeReadinessRule → Controller → Type 0
SelectorKept rule k =
    (cached : NodeReadinessRule)
    → get_cached_rule rule.name k ≡ some cached
    → node_selector_changed rule.spec.node_selector cached.spec.node_selector ≡ false

module _ {W S : Type 0} (c : Client W S) (name : String) (s : State W) (rule : NodeReadinessRule)
    (w : W) where
  kept_selector :
      (t : State W) (o : Option NodeReadinessRule)
      → ((cached : NodeReadinessRule)
          → o ≡ some cached
          → node_selector_changed rule.spec.node_selector cached.spec.node_selector ≡ false)
      → clean_old_selector c o rule t ≡ (next tt, t)
  kept_selector t none kept = refl
  kept_selector t (some cached) kept = rw (kept cached refl) refl

  -- The pass over a live rule, as far as its first call behind the finalizer and the selector.
  live_lem :
      c.get_rule name s.world ≡ (ok rule, w)
      → rule.deletion_timestamp ≡ none
      → contains_finalizer rule finalizer_name ≡ true
      → SelectorKept rule s.controller
      → rule.spec.dry_run ≡ false
      → reconcile c name s
        ≡ (call in_a_minute (process_all_nodes_for_rule c (cleared rule)) >>= save_results c)
            (record { controller = update_rule_cache rule s.controller; world = w })
  unfolding reconcile fetch_rule reconcile_live ensure_finalizer handle_selector_change
      evaluate_nodes
  live_lem got alive held kept real =
      let t : State W = record { controller = s.controller; world = w } in
      bind-next (fetch_rule c name) (λ r. dispatch c name r r.deletion_timestamp) s t rule
        (ap (fetched c name s.controller) got)
      ∙ ap (λ x. dispatch c name rule x t) alive
      ∙ (rw held (ap (proceed (λ _. manage_nodes c rule)) (kept_selector t _ kept) ∙ rw real refl))

  -- What is left of a pass behind the evaluation of the nodes touches no node.
  saved_same :
      (calls : RuleCallLaw c) (retries : RetryLaw c) (n : String) (evaluated : NodeReadinessRule)
      (t : State W)
      → (save_results c evaluated t).0 ≡ stop no_requeue none
      → (c.get_node n (save_results c evaluated t).1.world).0 ≡ (c.get_node n t.world).0
  saved_same calls retries n evaluated t finished =
      let prune = call in_a_minute (cleanup_deleted_nodes c evaluated) >> done in
      let (saved, _, second) =
        call-done in_a_minute (update_rule_status c evaluated) (λ _. prune) t _ refl finished in
      let u : State W = record {
        controller = t.controller;
        world = (update_rule_status c evaluated t.world).1;
      } in
      let (pruned, _, third) =
        call-done in_a_minute (cleanup_deleted_nodes c evaluated) (λ _. done) u _ refl
          (ap (λ o. o.0) (sym second) ∙ finished) in
      ap (λ o. (c.get_node n o.1.world).0) (second ∙ third)
      ∙ cleanup_deleted_nodes_node c calls retries n evaluated u.world
      ∙ update_rule_status_node c calls retries n evaluated t.world

  -- The nodes on the server after the pass are those that the pass over the nodes leaves.
  live_view :
      (calls : RuleCallLaw c) (retries : RetryLaw c) (rule' : NodeReadinessRule) (n : String)
      → c.get_rule name s.world ≡ (ok rule, w)
      → rule.deletion_timestamp ≡ none
      → contains_finalizer rule finalizer_name ≡ true
      → SelectorKept rule s.controller
      → rule.spec.dry_run ≡ false
      → (process_all_nodes_for_rule c (cleared rule) w).0 ≡ ok rule'
      → (reconcile c name s).0 ≡ stop no_requeue none
      → (process_all_nodes_for_rule c (cleared rule) w
          ≡ (ok rule', (process_all_nodes_for_rule c (cleared rule) w).1))
        × ((c.get_node n (reconcile c name s).1.world).0
            ≡ (c.get_node n (process_all_nodes_for_rule c (cleared rule) w).1).0)
  live_view calls retries rule' n got alive held kept real passed finished =
      let t : State W = record { controller = update_rule_cache rule s.controller; world = w } in
      let pass = live_lem got alive held kept real in
      let (evaluated, is_ok, first) =
        call-done in_a_minute (process_all_nodes_for_rule c (cleared rule)) (save_results c) t _
          refl (ap (λ o. o.0) (sym pass) ∙ finished) in
      let p = process_all_nodes_for_rule c (cleared rule) w in
      let same : evaluated ≡ rule' = ok_injective (sym (ap (λ o. o.0) is_ok) ∙ passed) in
      (
        is_ok ∙ ap (λ r. (ok r, p.1)) same,
        ap (λ o. (c.get_node n o.1.world).0) (pass ∙ first)
            ∙ (saved_same calls retries n evaluated
                (record { controller = update_rule_cache rule s.controller; world = p.1 })
                (ap (λ o. o.0) (sym first) ∙ ap (λ o. o.0) (sym pass) ∙ finished)),
      )

  -- On a server that no other writer changes, that stores what a patch or an update sends, and
  -- whose calls about rules leave the nodes alone, with a retry that calls again only after a
  -- conflict: if the pass over a live rule that has the finalizer, is not in dry run and has the
  -- selector of its cached version, if any, lists the nodes and ends without an error, then for
  -- every name without a failure in the status that the pass over the nodes gave, the node of
  -- that name has the rule's taint on the server exactly when it misses a requirement, if it was
  -- listed and the rule applies to it, and has or misses it as before, if not.
  pub reconcile_live_refines :
      (laws : NodeLaws c) (calls : RuleCallLaw c) (rule' : NodeReadinessRule) (nodes : List Node)
      (n : String) (w' : W)
      → c.get_rule name s.world ≡ (ok rule, w)
      → rule.deletion_timestamp ≡ none
      → contains_finalizer rule finalizer_name ≡ true
      → SelectorKept rule s.controller
      → rule.spec.dry_run ≡ false
      → c.list_nodes w ≡ (ok nodes, w')
      → (process_all_nodes_for_rule c (cleared rule) w).0 ≡ ok rule'
      → find_failure n rule'.status.failed_nodes ≡ none
      → (reconcile c name s).0 ≡ stop no_requeue none
      → taint_view c rule.spec.taint n (reconcile c name s).1.world
        ≡ settled c rule nodes n (taint_view c rule.spec.taint n w')
  unfolding rule_applies_to
  reconcile_live_refines laws calls rule' nodes n w' got alive held kept real listed passed fine
        finished =
      let (done, view) =
        live_view calls laws.retries rule' n got alive held kept real passed finished in
      ap (read_taint rule.spec.taint) view
      ∙ process_all_nodes_refines c laws (cleared rule) rule' nodes n w w' _ listed done fine

  -- On a server that no other writer changes, that stores what a patch or an update sends, and
  -- whose calls about rules leave the nodes alone, with a retry that calls again only after a
  -- conflict: if the pass over a live rule that has the finalizer, is not in dry run and has the
  -- selector of its cached version, if any, lists the nodes and ends without an error, then on
  -- every node without a failure in the status that the pass over the nodes gave, the list of the
  -- taints of another key or another effect than the rule's is as it was, with their order and
  -- their values.
  pub reconcile_live_foreign :
      (laws : NodeLaws c) (calls : RuleCallLaw c) (rule' : NodeReadinessRule) (nodes : List Node)
      (n : String) (w' : W)
      → c.get_rule name s.world ≡ (ok rule, w)
      → rule.deletion_timestamp ≡ none
      → contains_finalizer rule finalizer_name ≡ true
      → SelectorKept rule s.controller
      → rule.spec.dry_run ≡ false
      → c.list_nodes w ≡ (ok nodes, w')
      → (process_all_nodes_for_rule c (cleared rule) w).0 ≡ ok rule'
      → find_failure n rule'.status.failed_nodes ≡ none
      → (reconcile c name s).0 ≡ stop no_requeue none
      → others_view c rule.spec.taint n (reconcile c name s).1.world
        ≡ others_view c rule.spec.taint n w'
  reconcile_live_foreign laws calls rule' nodes n w' got alive held kept real listed passed fine
        finished =
      let (done, view) =
        live_view calls laws.retries rule' n got alive held kept real passed finished in
      ap (read_others rule.spec.taint) view
      ∙ process_all_nodes_foreign c laws (cleared rule) rule' nodes n w w' _ listed done fine
