-- ===== src/RuleController/Reconcile/Actions.antt =====
-- About the steps of RuleReconciler.Reconcile: a property of the state that each of them keeps, and
-- chains of such steps.
use node_readiness_controlle.Prelude.{String, Bool, true, false, if◌then◌else◌}
use node_readiness_controlle.Api.{NodeReadinessRule, no_dry_run_results}
use node_readiness_controlle.Platform.{Result, ok, err, Client}
use node_readiness_controlle.RuleController.Cache.{
  Controller, update_rule_cache, remove_rule_from_cache,
}
use node_readiness_controlle.RuleController.Finalizer.{
  finalizer_name, add_finalizer, remove_finalizer,
}
use node_readiness_controlle.RuleController.Process.{process_all_nodes_for_rule}
use node_readiness_controlle.RuleController.DryRun.{process_dry_run, with_dry_run_results}
use node_readiness_controlle.RuleController.Cleanup.{
  cleanup_taints_for_rule, cleanup_nodes_after_selector_change, cleanup_deleted_nodes,
}
use node_readiness_controlle.RuleController.Persist.{update_rule_status}
use node_readiness_controlle.RuleController.Reconcile.{
  State, Flow, next, stop, Action, ReconcileResult, proceed, ◌>>=◌, done, call, returned,
}

-- Nothing is asked of the value.
abbrev pub Anything : {A : Type 0} → A → Type 0
Anything a = Unit

module _ {W S : Type 0} (c : Client W S) (P : State W → Type 0)
    (IsGood : NodeReadinessRule → Type 0) where
  -- The call keeps the property of the state.
  abbrev pub IsKept : {A : Type 0} → (W → Result A × W) → Type 0
  IsKept f = (s : State W) → P s → P (record { controller = s.controller; world = (f s.world).1 })

  -- What holds of a value that a call gives, and of one that an action goes on with.
  abbrev pub OnOk : {A : Type 0} → (A → Type 0) → Result A → Type 0
  OnOk Q (ok a) = Q a
  OnOk Q (err e) = Unit

  abbrev pub OnNext : {A : Type 0} → (A → Type 0) → Flow A → Type 0
  OnNext Q (next a) = Q a
  OnNext Q (stop r e) = Unit

  -- Every call of a pass, and every change of the cache, keeps the property, where the rules that
  -- are read are good.
  pub record PassRules : Type 0 where
    pub cached :
        (rule : NodeReadinessRule) (s : State W)
        → P s
        → P (record { controller = update_rule_cache rule s.controller; world = s.world })
    pub uncached :
        (name : String) (s : State W)
        → P s
        → P (record { controller = remove_rule_from_cache name s.controller; world = s.world })
    pub got : (name : String) → IsKept (c.get_rule name)
    pub got_good : (name : String) (s : State W) → P s → OnOk IsGood (c.get_rule name s.world).0
    pub finalizer_added :
        (rule : NodeReadinessRule)
        → IsGood rule
        → IsKept (c.update_rule (add_finalizer rule finalizer_name))
    pub finalizer_removed :
        (rule : NodeReadinessRule)
        → IsGood rule
        → IsKept (c.update_rule (remove_finalizer rule finalizer_name))
    pub cleaned : (rule : NodeReadinessRule) → IsGood rule → IsKept (cleanup_taints_for_rule c rule)
    pub selector_cleaned :
        (old_rule rule : NodeReadinessRule)
        → IsGood rule
        → IsKept (cleanup_nodes_after_selector_change c old_rule rule)
    pub dry_run_done : (rule : NodeReadinessRule) → IsKept (process_dry_run c rule)
    pub processed :
        (rule : NodeReadinessRule)
        → IsGood rule
        → IsKept (process_all_nodes_for_rule c (with_dry_run_results rule no_dry_run_results))
    pub saved : (rule : NodeReadinessRule) → IsKept (update_rule_status c rule)
    pub pruned : (rule : NodeReadinessRule) → IsKept (cleanup_deleted_nodes c rule)

  -- The action keeps the property, and goes on with values of which `Q` holds.
  abbrev pub Keeps : {A : Type 0} → (A → Type 0) → Action W A → Type 0
  Keeps Q m = (s : State W) → P s → P (m s).1 × OnNext Q (m s).0

  proceed-Keeps :
      {A B : Type 0} (Q : A → Type 0) (R : B → Type 0) (f : A → Action W B)
      → ((a : A) → Q a → Keeps R (f a))
      → (p : Flow A × State W) → P p.1
      → OnNext Q p.0
      → P (proceed f p).1 × OnNext R (proceed f p).0
  proceed-Keeps Q R f h (next a, s) v q = h a q s v
  proceed-Keeps Q R f h (stop r e, s) v q = (v, tt)

  pub bind-Keeps :
      {A B : Type 0} (Q : A → Type 0) (R : B → Type 0) (m : Action W A) (f : A → Action W B)
      → Keeps Q m
      → ((a : A) → Q a → Keeps R (f a))
      → Keeps R (m >>= f)
  bind-Keeps Q R m f hm hf s v = proceed-Keeps Q R f hf (m s) (hm s v).0 (hm s v).1

  pub returned-Keeps :
      {A : Type 0} (Q : A → Type 0) (r : ReconcileResult) (k : Controller) (p : Result A × W)
      → P (record { controller = k; world = p.1 })
      → OnOk Q p.0
      → P (returned r k p).1 × OnNext Q (returned r k p).0
  returned-Keeps Q r k (ok a, w) v q = (v, q)
  returned-Keeps Q r k (err e, w) v q = (v, tt)

  any_ok : {A : Type 0} (r : Result A) → OnOk Anything r
  any_ok (ok a) = tt
  any_ok (err e) = tt

  pub call-Keeps :
      {A : Type 0} (r : ReconcileResult) (f : W → Result A × W)
      → IsKept f
      → Keeps Anything (call r f)
  call-Keeps r f h s v =
      returned-Keeps Anything r s.controller (f s.world) (h s v) (any_ok (f s.world).0)

  pub if-Keeps :
      {A : Type 0} (Q : A → Type 0) (t : Bool) (m n : Action W A)
      → Keeps Q m
      → Keeps Q n
      → Keeps Q (if t then m else n)
  if-Keeps Q true m n hm hn = hm
  if-Keeps Q false m n hm hn = hn

  pub done-Keeps : Keeps {A = Unit {0}} Anything done
  done-Keeps s v = (v, tt)
