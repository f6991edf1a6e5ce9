-- ===== src/RuleController/Reconcile/Validity.antt =====
-- About RuleReconciler.Reconcile and the shape of the rule cache.
use node_readiness_controlle.Prelude.{String}
use node_readiness_controlle.Api.{NodeReadinessRule}
use node_readiness_controlle.Platform.{Result, ok, err, Client}
use node_readiness_controlle.RuleController.Cache.Laws.{
  IsValid, update_rule_cache-IsValid, remove_rule_from_cache-IsValid,
}
use node_readiness_controlle.RuleController.Reconcile.{State, reconcile}
use node_readiness_controlle.RuleController.Reconcile.Actions.{PassRules, OnOk}
use node_readiness_controlle.RuleController.Reconcile.Keeps.{reconcile_keeps}

module _ {W S : Type 0} (c : Client W S) where
  any_rule :
      (r : Result NodeReadinessRule)
      → OnOk c (λ s. IsValid s.controller) (λ rule. Unit) (λ rule. Unit) r
  any_rule (ok rule) = tt
  any_rule (err e) = tt

  validity_rules : PassRules c (λ s. IsValid s.controller) (λ rule. Unit)
  validity_rules = record {
    cached = λ rule s v. update_rule_cache-IsValid rule s.controller v;
    uncached = λ name s v. remove_rule_from_cache-IsValid name s.controller v;
    got = λ name s v. v;
    got_good = λ name s v. any_rule (c.get_rule name s.world).0;
    finalizer_added = λ rule _ s v. v;
    finalizer_removed = λ rule _ s v. v;
    cleaned = λ rule _ s v. v;
    selector_cleaned = λ old_rule rule _ s v. v;
    dry_run_done = λ rule s v. v;
    processed = λ rule _ s v. v;
    saved = λ rule s v. v;
    pruned = λ rule s v. v;
  }

  -- If the cache is a map whose keys are the names of its rules, it is one after a pass over a
  -- rule, whatever the outcome.
  pub reconcile-IsValid :
      (name : String) (s : State W)
      → IsValid s.controller
      → IsValid (reconcile c name s).1.controller
  reconcile-IsValid name s v =
      reconcile_keeps c (λ t. IsValid t.controller) (λ rule. Unit) validity_rules name s v
