-- ===== src/RuleController/Reconcile/Keeps.antt =====
-- About RuleReconciler.Reconcile: what each of its calls and changes of the cache keeps, a pass keeps.
use node_readiness_controlle.Prelude.{
  String, Bool, true, false, Option, none, some, if◌then◌else◌, ℕ,
}
use node_readiness_controlle.Api.{NodeReadinessRule, no_dry_run_results}
use node_readiness_controlle.Platform.{Error, Result, ok, err, Client}
use node_readiness_controlle.RuleController.Cache.{
  Controller, update_rule_cache, remove_rule_from_cache, get_cached_rule,
}
use node_readiness_controlle.RuleController.Selector.{node_selector_changed}
use node_readiness_controlle.RuleController.Finalizer.{
  finalizer_name, contains_finalizer, add_finalizer, remove_finalizer,
}
use node_readiness_controlle.RuleController.Process.{process_all_nodes_for_rule}
use node_readiness_controlle.RuleController.DryRun.{process_dry_run, with_dry_run_results}
use node_readiness_controlle.RuleController.Cleanup.{
  cleanup_taints_for_rule, cleanup_nodes_after_selector_change, cleanup_deleted_nodes,
}
use node_readiness_controlle.RuleController.Persist.{update_rule_status}
use node_readiness_controlle.RuleController.Reconcile.{
  State, Flow, stop, no_requeue, in_a_minute, ReconcileResult, ◌>>=◌, ◌>>◌, pure, done, call,
  change, fetched, fetch_rule, reconcile_deleted, clean_up, drop_finalizer, forget,
  ensure_finalizer, clean_old_selector, handle_selector_change, evaluate_nodes, save_results,
  manage_nodes, reconcile_live, dispatch, reconcile,
}
use node_readiness_controlle.RuleController.Reconcile.Actions.{
  PassRules, OnOk, OnNext, Keeps, Anything, bind-Keeps, returned-Keeps, call-Keeps, if-Keeps,
  done-Keeps,
}

module _ {W S : Type 0} (c : Client W S) (P : State W → Type 0)
    (IsGood : NodeReadinessRule → Type 0) (rules : PassRules c P IsGood) where
  get-Keeps :
      (r : ReconcileResult) (name : String) → Keeps c P IsGood IsGood (call r (c.get_rule name))
  get-Keeps r name s v =
      returned-Keeps c P IsGood IsGood r s.controller (c.get_rule name s.world) (rules.got name s v)
        (rules.got_good name s v)

  if_removed :
      (t : Bool) (name : String) (k : Controller) (e : Error) (w : W)
      → P (record { controller = k; world = w })
      → let out : Flow NodeReadinessRule × State W =
          if t
          then (
            stop no_requeue none,
            record { controller = remove_rule_from_cache name k; world = w },
          )
          else (stop no_requeue (some e), record { controller = k; world = w }) in
        P out.1 × OnNext c P IsGood IsGood out.0
  if_removed true name k e w v = (rules.uncached name _ v, tt)
  if_removed false name k e w v = (v, tt)

  fetched-Keeps :
      (name : String) (k : Controller) (p : Result NodeReadinessRule × W)
      → P (record { controller = k; world = p.1 })
      → OnOk c P IsGood IsGood p.0
      → P (fetched c name k p).1 × OnNext c P IsGood IsGood (fetched c name k p).0
  fetched-Keeps name k (ok rule, w) v g = (v, g)
  fetched-Keeps name k (err e, w) v g = if_removed (c.is_not_found e) name k e w v

  fetch-Keeps : (name : String) → Keeps c P IsGood IsGood (fetch_rule c name)
  unfolding fetch_rule
  fetch-Keeps name s v =
      fetched-Keeps name s.controller (c.get_rule name s.world) (rules.got name s v)
        (rules.got_good name s v)

  deleted-Keeps :
      (rule : NodeReadinessRule)
      → IsGood rule
      → Keeps c P IsGood Anything (reconcile_deleted c rule)
  unfolding reconcile_deleted
  deleted-Keeps rule good =
      if-Keeps c P IsGood Anything (contains_finalizer rule finalizer_name)
        (clean_up c rule >> (drop_finalizer c rule >>= forget c)) done
        (bind-Keeps c P IsGood Anything Anything (clean_up c rule)
          (λ u. drop_finalizer c rule >>= forget c)
          (call-Keeps c P IsGood in_a_minute (cleanup_taints_for_rule c rule)
            (rules.cleaned rule good))
          (λ u _.
            bind-Keeps c P IsGood Anything Anything (drop_finalizer c rule) (forget c)
              (call-Keeps c P IsGood no_requeue
                (c.update_rule (remove_finalizer rule finalizer_name))
                (rules.finalizer_removed rule good))
              (λ stored _ s v. (rules.uncached stored.name s v, tt))))
        (done-Keeps c P IsGood)

  ensure-Keeps :
      (name : String) (rule : NodeReadinessRule)
      → IsGood rule
      → Keeps c P IsGood IsGood (ensure_finalizer c name rule)
  unfolding ensure_finalizer
  ensure-Keeps name rule good =
      if-Keeps c P IsGood IsGood (contains_finalizer rule finalizer_name) (pure rule)
        (call no_requeue (c.update_rule (add_finalizer rule finalizer_name)) >>= λ _.
          call no_requeue (c.get_rule name))
        (λ s v. (v, good))
        (bind-Keeps c P IsGood Anything IsGood
          (call no_requeue (c.update_rule (add_finalizer rule finalizer_name)))
          (λ _. call no_requeue (c.get_rule name))
          (call-Keeps c P IsGood no_requeue (c.update_rule (add_finalizer rule finalizer_name))
            (rules.finalizer_added rule good))
          (λ u _. get-Keeps no_requeue name))

  old_selector-Keeps :
      (o : Option NodeReadinessRule) (rule : NodeReadinessRule)
      → IsGood rule
      → Keeps c P IsGood Anything (clean_old_selector c o rule)
  old_selector-Keeps none rule good = λ s v. (v, tt)
  old_selector-Keeps (some cached) rule good =
      if-Keeps c P IsGood Anything
        (node_selector_changed rule.spec.node_selector cached.spec.node_selector)
        (call in_a_minute (cleanup_nodes_after_selector_change c cached rule)) (pure tt)
        (call-Keeps c P IsGood in_a_minute (cleanup_nodes_after_selector_change c cached rule)
          (rules.selector_cleaned cached rule good))
        (λ s v. (v, tt))

  selector-Keeps :
      (rule : NodeReadinessRule)
      → IsGood rule
      → Keeps c P IsGood Anything (handle_selector_change c rule)
  unfolding handle_selector_change
  selector-Keeps rule good s v =
      old_selector-Keeps (get_cached_rule rule.name s.controller) rule good s v

  evaluate_nodes-Keeps :
      (rule : NodeReadinessRule) → IsGood rule → Keeps c P IsGood Anything (evaluate_nodes c rule)
  unfolding evaluate_nodes
  evaluate_nodes-Keeps rule good =
      let cleared = with_dry_run_results rule no_dry_run_results in
      if-Keeps c P IsGood Anything rule.spec.dry_run (call in_a_minute (process_dry_run c rule))
        (call in_a_minute (process_all_nodes_for_rule c cleared))
        (call-Keeps c P IsGood in_a_minute (process_dry_run c rule) (rules.dry_run_done rule))
        (call-Keeps c P IsGood in_a_minute (process_all_nodes_for_rule c cleared)
          (rules.processed rule good))

  save-Keeps : (rule : NodeReadinessRule) → Keeps c P IsGood Anything (save_results c rule)
  save-Keeps rule =
      bind-Keeps c P IsGood Anything Anything (call in_a_minute (update_rule_status c rule))
        (λ u. call in_a_minute (cleanup_deleted_nodes c rule) >> done)
        (call-Keeps c P IsGood in_a_minute (update_rule_status c rule) (rules.saved rule))
        (λ u _.
          bind-Keeps c P IsGood Anything Anything (call in_a_minute (cleanup_deleted_nodes c rule))
            (λ u'. done)
            (call-Keeps c P IsGood in_a_minute (cleanup_deleted_nodes c rule) (rules.pruned rule))
            (λ u' _. (done-Keeps c P IsGood)))

  live-Keeps :
      (name : String) (rule : NodeReadinessRule)
      → IsGood rule
      → Keeps c P IsGood Anything (reconcile_live c name rule)
  unfolding reconcile_live
  live-Keeps name rule good =
      bind-Keeps c P IsGood IsGood Anything (ensure_finalizer c name rule)
        (λ r. handle_selector_change c r >> manage_nodes c r) (ensure-Keeps name rule good)
        (λ r fine.
          bind-Keeps c P IsGood Anything Anything (handle_selector_change c r)
            (λ u. manage_nodes c r) (selector-Keeps r fine)
            (λ u _.
              bind-Keeps c P IsGood Anything Anything (change (update_rule_cache r))
                (λ u'. evaluate_nodes c r >>= save_results c) (λ s v. (rules.cached r s v, tt))
                (λ u' _.
                  bind-Keeps c P IsGood Anything Anything (evaluate_nodes c r) (save_results c)
                    (evaluate_nodes-Keeps r fine) (λ e _. save-Keeps e))))

  dispatch-Keeps :
      (name : String) (rule : NodeReadinessRule) (time : Option ℕ)
      → IsGood rule
      → Keeps c P IsGood Anything (dispatch c name rule time)
  dispatch-Keeps name rule none good = live-Keeps name rule good
  dispatch-Keeps name rule (some time) good = deleted-Keeps rule good

  -- What each call of a pass and each change of the cache keeps, the pass keeps.
  pub reconcile_keeps : (name : String) (s : State W) → P s → P (reconcile c name s).1
  unfolding reconcile
  reconcile_keeps name s v =
      (bind-Keeps c P IsGood IsGood Anything (fetch_rule c name)
        (λ rule. dispatch c name rule rule.deletion_timestamp) (fetch-Keeps name)
        (λ rule good. dispatch-Keeps name rule rule.deletion_timestamp good) s v).0
