-- ===== src/RuleController/Reconcile.antt =====
-- RuleReconciler.Reconcile: one pass over a rule. A step goes on with a value or stops the pass.
pub mod Steps
pub mod Deletion
pub mod Saving
pub mod Live
pub mod Modes
pub mod Actions
pub mod Keeps
pub mod Validity
use node_readiness_controlle.Prelude.{ℕ, ◌*◌, ◌^◌, String, Option, none, some, if◌then◌else◌}
use node_readiness_controlle.Api.{NodeReadinessRule, no_dry_run_results}
use node_readiness_controlle.Platform.{Error, Result, ok, err, Client}
use node_readiness_controlle.RuleController.Cache.{
  Controller, update_rule_cache, get_cached_rule, remove_rule_from_cache,
}
use node_readiness_controlle.RuleController.Selector.{node_selector_changed}
use node_readiness_controlle.RuleController.Finalizer.{
  finalizer_name, contains_finalizer, add_finalizer, remove_finalizer,
}
use node_readiness_controlle.RuleController.Process.{process_all_nodes_for_rule}
use node_readiness_controlle.RuleController.DryRun.{process_dry_run, with_dry_run_results}
use node_readiness_controlle.RuleController.Cleanup.{
  cleanup_taints_for_rule, cleanup_nodes_after_selector_change, cleanup_deleted_nodes,
}
use node_readiness_controlle.RuleController.Persist.{update_rule_status}

-- ctrl.Result: the time, in nanoseconds, after which the pass is run again.
pub record ReconcileResult : Type 0 where
  pub requeue_after : ℕ

abbrev pub no_requeue : ReconcileResult
no_requeue = record { requeue_after = 0 }

-- `ctrl.Result{RequeueAfter: time.Minute}`
abbrev pub in_a_minute : ReconcileResult
in_a_minute = record { requeue_after = 60 * 10 ^ 9 }

pub record State (W : Type 0) : Type 0 where
  pub controller : Controller
  pub world : W

-- A statement list either goes on, or returns from Reconcile.
pub data Flow (A : Type 0) : Type 0 where
  next : A → Flow A
  stop : ReconcileResult → Option Error → Flow A

abbrev pub Action : Type 0 → Type 0 → Type 0
Action W A = State W → Flow A × State W

-- The rest of a pass, behind a step that went on; a step that stopped ends the pass.
abbrev pub proceed : {W A B : Type 0} → (A → Action W B) → Flow A × State W → Flow B × State W
proceed f (next a, s) = f a s
proceed f (stop r e, s) = (stop r e, s)

infixl 5 ◌>>=◌ ◌>>◌
abbrev pub ◌>>=◌ : {W A B : Type 0} → Action W A → (A → Action W B) → Action W B
◌>>=◌ m f s = proceed f (m s)

abbrev pub ◌>>◌ : {W B : Type 0} → Action W (Unit {0}) → Action W B → Action W B
m >> k = m >>= λ _. k

abbrev pub pure : {W A : Type 0} → A → Action W A
pure a s = (next a, s)

-- `return ctrl.Result{}, nil`
abbrev pub done : {W A : Type 0} → Action W A
done s = (stop no_requeue none, s)

abbrev pub returned :
    {W A : Type 0} → ReconcileResult → Controller → Result A × W → Flow A × State W
returned result r (ok a, w) = (next a, record { controller = r; world = w })
returned result r (err e, w) = (stop result (some e), record { controller = r; world = w })

-- A call whose error ends the pass with the given result.
abbrev pub call : {W A : Type 0} → ReconcileResult → (W → Result A × W) → Action W A
call result f s = returned result s.controller (f s.world)

abbrev pub change : {W : Type 0} → (Controller → Controller) → Action W (Unit {0})
change f s = (next tt, record s { controller = f s.controller })

module _ {W S : Type 0} (c : Client W S) where
  abbrev pub fetched :
      String → Controller → Result NodeReadinessRule × W → Flow NodeReadinessRule × State W
  fetched name r (ok rule, w) = (next rule, record { controller = r; world = w })
  fetched name r (err e, w) =
      if c.is_not_found e
      then (stop no_requeue none, record { controller = remove_rule_from_cache name r; world = w })
      else (stop no_requeue (some e), record { controller = r; world = w })

  -- The first `Get`: a rule that is gone leaves the cache.
  unfoldable pub fetch_rule : String → Action W NodeReadinessRule
  fetch_rule name s = fetched name s.controller (c.get_rule name s.world)

  abbrev pub clean_up : NodeReadinessRule → Action W (Unit {0})
  clean_up rule = call in_a_minute (cleanup_taints_for_rule c rule)

  abbrev pub drop_finalizer : NodeReadinessRule → Action W NodeReadinessRule
  drop_finalizer rule = call no_requeue (c.update_rule (remove_finalizer rule finalizer_name))

  abbrev pub forget : NodeReadinessRule → Action W (Unit {0})
  forget stored = change (remove_rule_from_cache stored.name) >> done

  -- The branch of a rule with a deletion timestamp.
  unfoldable pub reconcile_deleted : NodeReadinessRule → Action W (Unit {0})
  reconcile_deleted rule =
      if contains_finalizer rule finalizer_name
      then (do clean_up rule; stored ← drop_finalizer rule; forget stored)
      else done

  -- The finalizer is stored before any taint is managed; the rule is read again after that.
  unfoldable pub ensure_finalizer : String → NodeReadinessRule → Action W NodeReadinessRule
  ensure_finalizer name rule = if contains_finalizer rule finalizer_name then pure rule else (do
    _ ← call no_requeue (c.update_rule (add_finalizer rule finalizer_name))
    call no_requeue (c.get_rule name))

  abbrev pub clean_old_selector : Option NodeReadinessRule → NodeReadinessRule → Action W (Unit {0})
  clean_old_selector none rule = pure tt
  clean_old_selector (some cached) rule =
      if node_selector_changed rule.spec.node_selector cached.spec.node_selector
      then call in_a_minute (cleanup_nodes_after_selector_change c cached rule)
      else pure tt

  -- A cached version with another selector: the nodes that only it matched are cleaned up.
  unfoldable pub handle_selector_change : NodeReadinessRule → Action W (Unit {0})
  handle_selector_change rule s = clean_old_selector (get_cached_rule rule.name s.controller) rule s

  unfoldable pub evaluate_nodes : NodeReadinessRule → Action W NodeReadinessRule
  evaluate_nodes rule =
      if rule.spec.dry_run
      then call in_a_minute (process_dry_run c rule)
      else call in_a_minute
          (process_all_nodes_for_rule c (with_dry_run_results rule no_dry_run_results))

  -- The status is written, and then the entries of deleted nodes are taken out of it.
  abbrev pub save_results : NodeReadinessRule → Action W (Unit {0})
  save_results evaluated = do
    call in_a_minute (update_rule_status c evaluated)
    call in_a_minute (cleanup_deleted_nodes c evaluated)
    done

  abbrev pub manage_nodes : NodeReadinessRule → Action W (Unit {0})
  manage_nodes rule = do
    change (update_rule_cache rule)
    evaluated ← evaluate_nodes rule
    save_results evaluated

  -- The pass over a rule that is not being deleted.
  unfoldable pub reconcile_live : String → NodeReadinessRule → Action W (Unit {0})
  reconcile_live name fetched_rule = do
    rule ← ensure_finalizer name fetched_rule
    handle_selector_change rule
    manage_nodes rule

  abbrev pub dispatch : String → NodeReadinessRule → Option ℕ → Action W (Unit {0})
  dispatch name rule none = reconcile_live name rule
  dispatch name rule (some time) = reconcile_deleted rule

  unfoldable pub reconcile : String → Action W (Unit {0})
  reconcile name = do rule ← fetch_rule name; dispatch name rule rule.deletion_timestamp
