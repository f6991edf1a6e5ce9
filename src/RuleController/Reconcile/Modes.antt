-- ===== src/RuleController/Reconcile/Modes.antt =====
-- About RuleReconciler.Reconcile and the global dry run switch.
use node_readiness_controlle.Prelude.{
  String, Bool, true, false, Option, none, some, ◌≡◌, refl, ap, ◌∙◌, if◌then◌else◌, ℕ,
}
use node_readiness_controlle.Api.{NodeReadinessRule, no_dry_run_results}
use node_readiness_controlle.RuleController.Process.{process_all_nodes_for_rule}
use node_readiness_controlle.RuleController.DryRun.{process_dry_run, with_dry_run_results}
use node_readiness_controlle.Platform.{Error, Result, ok, err, Client}
use node_readiness_controlle.RuleController.Cache.{
  Controller, set_global_dry_run, update_rule_cache, remove_rule_from_cache, get_cached_rule,
}
use node_readiness_controlle.RuleController.Selector.{node_selector_changed}
use node_readiness_controlle.RuleController.Finalizer.{
  finalizer_name, contains_finalizer, add_finalizer, remove_finalizer,
}
use node_readiness_controlle.RuleController.Cleanup.{
  cleanup_taints_for_rule, cleanup_nodes_after_selector_change, cleanup_deleted_nodes,
}
use node_readiness_controlle.RuleController.Persist.{update_rule_status}
use node_readiness_controlle.RuleController.Reconcile.{
  State, Flow, no_requeue, in_a_minute, next, stop, Action, ReconcileResult, proceed, ◌>>=◌, ◌>>◌,
  pure, done, call, returned, change, fetched, fetch_rule, reconcile_deleted, ensure_finalizer,
  clean_up, drop_finalizer, forget, save_results, manage_nodes, clean_old_selector,
  handle_selector_change, evaluate_nodes, reconcile_live, dispatch, reconcile,
}

module _ {W S : Type 0} (c : Client W S) (b : Bool) where
  -- The state with the global dry run switch set.
  abbrev pub flagged : State W → State W
  flagged s = record { controller = set_global_dry_run b s.controller; world = s.world }

  abbrev both : {A : Type 0} → Flow A × State W → Flow A × State W
  both p = (p.0, flagged p.1)

  -- The action does the same whatever the switch says.
  abbrev IgnoresSwitch : {A : Type 0} → Action W A → Type 0
  IgnoresSwitch m = (s : State W) → m (flagged s) ≡ both (m s)

  proceed-both :
      {A B : Type 0} (f : A → Action W B)
      → ((a : A) → IgnoresSwitch (f a))
      → (p : Flow A × State W) → proceed f (both p) ≡ both (proceed f p)
  proceed-both f h (next a, s) = h a s
  proceed-both f h (stop r e, s) = refl

  bind_ignores :
      {A B : Type 0} (m : Action W A) (f : A → Action W B)
      → IgnoresSwitch m
      → ((a : A) → IgnoresSwitch (f a))
      → IgnoresSwitch (m >>= f)
  bind_ignores m f hm hf s = ap (proceed f) (hm s) ∙ proceed-both f hf (m s)

  returned-both :
      {A : Type 0} (r : ReconcileResult) (k : Controller) (p : Result A × W)
      → returned r (set_global_dry_run b k) p ≡ both (returned r k p)
  returned-both r k (ok a, w) = refl
  returned-both r k (err e, w) = refl

  call_ignores :
      {A : Type 0} (r : ReconcileResult) (f : W → Result A × W) → IgnoresSwitch (call r f)
  call_ignores r f s = returned-both r s.controller (f s.world)

  if_ignores :
      {A : Type 0} (t : Bool) (m n : Action W A)
      → IgnoresSwitch m
      → IgnoresSwitch n
      → IgnoresSwitch (if t then m else n)
  if_ignores true m n hm hn = hm
  if_ignores false m n hm hn = hn

  fetch_ignores : (name : String) → IgnoresSwitch (fetch_rule c name)
  unfolding fetch_rule set_global_dry_run remove_rule_from_cache
  fetch_ignores name s = go (c.get_rule name s.world)
    where
      not_found :
          (t : Bool) (e : Error) (w : W)
          → ◌≡◌ {A = Flow NodeReadinessRule × State W}
              (if t
                then (
                  stop (record { requeue_after = 0 }) none,
                  record {
                    controller = remove_rule_from_cache name (set_global_dry_run b s.controller);
                    world = w;
                  },
                )
                else (
                  stop (record { requeue_after = 0 }) (some e),
                  record { controller = set_global_dry_run b s.controller; world = w },
                ))
              (both (
                if t
                then (
                  stop (record { requeue_after = 0 }) none,
                  record { controller = remove_rule_from_cache name s.controller; world = w },
                )
                else (
                  stop (record { requeue_after = 0 }) (some e),
                  record { controller = s.controller; world = w },
                )))
      not_found true e w = refl
      not_found false e w = refl

      go :
          (p : Result NodeReadinessRule × W)
          → fetched c name (set_global_dry_run b s.controller) p
            ≡ both (fetched c name s.controller p)
      go (ok rule, w) = refl
      go (err e, w) = not_found (c.is_not_found e) e w

  forget_ignores : (stored : NodeReadinessRule) → IgnoresSwitch (forget c stored)
  unfolding set_global_dry_run remove_rule_from_cache
  forget_ignores stored s = refl

  deleted_ignores : (rule : NodeReadinessRule) → IgnoresSwitch (reconcile_deleted c rule)
  unfolding reconcile_deleted
  deleted_ignores rule =
      if_ignores (contains_finalizer rule finalizer_name)
        (clean_up c rule >> (drop_finalizer c rule >>= forget c)) done
        (bind_ignores (clean_up c rule) (λ u. drop_finalizer c rule >>= forget c)
          (call_ignores in_a_minute (cleanup_taints_for_rule c rule))
          (λ u.
            bind_ignores (drop_finalizer c rule) (forget c)
              (call_ignores no_requeue (c.update_rule (remove_finalizer rule finalizer_name)))
              forget_ignores))
        (λ s. refl)

  ensure_ignores :
      (name : String) (rule : NodeReadinessRule) → IgnoresSwitch (ensure_finalizer c name rule)
  unfolding ensure_finalizer
  ensure_ignores name rule =
      if_ignores (contains_finalizer rule finalizer_name) (pure rule)
        (update >>= λ _. call no_requeue (c.get_rule name)) (λ s. refl)
        (bind_ignores update (λ _. call no_requeue (c.get_rule name))
          (call_ignores no_requeue (c.update_rule (add_finalizer rule finalizer_name)))
          (λ u. call_ignores no_requeue (c.get_rule name)))
    where
      update : Action W NodeReadinessRule
      update = call no_requeue (c.update_rule (add_finalizer rule finalizer_name))

  selector_ignores : (rule : NodeReadinessRule) → IgnoresSwitch (handle_selector_change c rule)
  unfolding handle_selector_change get_cached_rule set_global_dry_run
  selector_ignores rule s = go (get_cached_rule rule.name s.controller)
    where
      go :
          (o : Option NodeReadinessRule)
          → clean_old_selector c o rule (flagged s) ≡ both (clean_old_selector c o rule s)
      go none = refl
      go (some cached) =
          if_ignores (node_selector_changed rule.spec.node_selector cached.spec.node_selector)
            (call in_a_minute (cleanup_nodes_after_selector_change c cached rule)) (pure tt)
            (call_ignores in_a_minute (cleanup_nodes_after_selector_change c cached rule))
            (λ t. refl) s

  evaluate_ignores : (rule : NodeReadinessRule) → IgnoresSwitch (evaluate_nodes c rule)
  unfolding evaluate_nodes
  evaluate_ignores rule =
      if_ignores rule.spec.dry_run (call in_a_minute (process_dry_run c rule))
        (call in_a_minute
          (process_all_nodes_for_rule c (with_dry_run_results rule no_dry_run_results)))
        (call_ignores in_a_minute (process_dry_run c rule))
        (call_ignores in_a_minute
          (process_all_nodes_for_rule c (with_dry_run_results rule no_dry_run_results)))

  finish_ignores : (rule : NodeReadinessRule) → IgnoresSwitch (save_results c rule)
  finish_ignores rule =
      bind_ignores (call in_a_minute (update_rule_status c rule))
        (λ u. call in_a_minute (cleanup_deleted_nodes c rule) >> done)
        (call_ignores in_a_minute (update_rule_status c rule))
        (λ u.
          bind_ignores (call in_a_minute (cleanup_deleted_nodes c rule)) (λ v. done)
            (call_ignores in_a_minute (cleanup_deleted_nodes c rule)) (λ v s. refl))

  work_ignores : (rule : NodeReadinessRule) → IgnoresSwitch (manage_nodes c rule)
  unfolding update_rule_cache set_global_dry_run
  work_ignores rule =
      bind_ignores (change (update_rule_cache rule)) (λ u. evaluate_nodes c rule >>= save_results c)
        (λ s. refl)
        (λ u.
          bind_ignores (evaluate_nodes c rule) (save_results c) (evaluate_ignores rule)
            finish_ignores)

  live_ignores :
      (name : String) (rule : NodeReadinessRule) → IgnoresSwitch (reconcile_live c name rule)
  unfolding reconcile_live
  live_ignores name rule =
      bind_ignores (ensure_finalizer c name rule)
        (λ r. handle_selector_change c r >> manage_nodes c r) (ensure_ignores name rule)
        (λ r.
          bind_ignores (handle_selector_change c r) (λ u. manage_nodes c r) (selector_ignores r)
            (λ u. work_ignores r))

  dispatch_ignores :
      (name : String) (rule : NodeReadinessRule) (time : Option ℕ)
      → IgnoresSwitch (dispatch c name rule time)
  dispatch_ignores name rule none = live_ignores name rule
  dispatch_ignores name rule (some time) = deleted_ignores rule

  -- A pass over a rule makes the same calls and gives the same answer whatever the global dry run
  -- switch says: the switch does not stop it from changing taints.
  pub reconcile_ignores_global_dry_run :
      (name : String) (s : State W)
      → reconcile c name (flagged s) ≡ ((reconcile c name s).0, flagged (reconcile c name s).1)
  unfolding reconcile
  reconcile_ignores_global_dry_run name =
      bind_ignores (fetch_rule c name) (λ rule. dispatch c name rule rule.deletion_timestamp)
        (fetch_ignores name) (λ rule. dispatch_ignores name rule rule.deletion_timestamp)
