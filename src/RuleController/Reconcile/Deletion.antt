-- ===== src/RuleController/Reconcile/Deletion.antt =====
-- About the branches of RuleReconciler.Reconcile for a deleted rule.
use node_readiness_controlle.Prelude.{
  String, Bool, true, List, [], ◌∷◌, ◌&&◌, none, some, ◌≡◌, ◌⊎◌, inl, inr, refl, ap, ◌∙◌, IsIn,
  Bool-cases,
}
use node_readiness_controlle.Api.{Taint, Node, NodeReadinessRule}
use node_readiness_controlle.Platform.{Error, Result, ok, err, Client}
use node_readiness_controlle.Platform.Laws.{PatchLaw, TaintStoreLaw, NodeCallLaw}
use node_readiness_controlle.RuleController.Cache.{rule_applies_to, remove_rule_from_cache}
use node_readiness_controlle.RuleController.Finalizer.{
  finalizer_name, contains_finalizer, remove_finalizer,
}
use node_readiness_controlle.RuleController.Cleanup.{
  note_error, remove_taints, cleanup_listed, cleanup_taints_for_rule,
}
use node_readiness_controlle.NodeController.Taints.{
  has_taint_by_spec, without_taint, remove_taint_by_spec,
}
use node_readiness_controlle.NodeController.Taints.Stored.{after_patch_world}
use node_readiness_controlle.RuleController.Cleanup.Laws.{IsClean}
use node_readiness_controlle.RuleController.Cleanup.Safety.{cleanup_taints_cleans}
use node_readiness_controlle.RuleController.Reconcile.{
  State, stop, no_requeue, in_a_minute, fetch_rule, reconcile_deleted, reconcile, fetched, proceed,
  returned, change, done, ◌>>◌, call,
}
use node_readiness_controlle.RuleController.Reconcile.Steps.{
  bind-next, bind-stop, call-ok, call-err,
}

Result-cases : (r : Result (Unit {0})) → (r ≡ ok tt) ⊎ ((e : Error) × (r ≡ err e))
Result-cases (ok u) = inl refl
Result-cases (err e) = inr (e, refl)

module _ {W S : Type 0} (c : Client W S) where
  -- If the read of a rule fails because the server does not know it, the pass removes the rule
  -- from the cache, makes no other call, and ends without an error.
  reconcile_not_found :
      (name : String) (s : State W) (e : Error) (w : W)
      → c.get_rule name s.world ≡ (err e, w)
      → c.is_not_found e ≡ true
      → reconcile c name s ≡ (
        stop no_requeue none,
        record { controller = remove_rule_from_cache name s.controller; world = w },
      )
  unfolding reconcile fetch_rule
  reconcile_not_found name s e w got missing =
      bind-stop (fetch_rule c name) _ s _ no_requeue none
        (ap (fetched c name s.controller) got ∙ (rw missing))

  -- What follows the update of the rule leaves the world alone.
  after_update :
      (s : State W) (q : Result NodeReadinessRule × W)
      → (proceed {B = Unit {0}}
          (λ (stored : NodeReadinessRule). change (remove_rule_from_cache stored.name) >> done)
          (returned no_requeue s.controller q)).1.world
        ≡ q.1
  after_update s (ok stored, v) = refl
  after_update s (err x, v) = refl

  module _ (rule : NodeReadinessRule) (s : State W)
      (held : contains_finalizer rule finalizer_name ≡ true) where
    deletion_failed :
        (e : Error) (w : W)
        → cleanup_taints_for_rule c rule s.world ≡ (err e, w)
        → reconcile_deleted c rule s
          ≡ (stop in_a_minute (some e), record { controller = s.controller; world = w })
    unfolding reconcile_deleted
    deletion_failed e w failed = rw held (
        bind-stop (call in_a_minute (cleanup_taints_for_rule c rule)) _ s _ in_a_minute (some e)
          (call-err in_a_minute (cleanup_taints_for_rule c rule) s e w failed))

    deletion_world :
        (w : W)
        → cleanup_taints_for_rule c rule s.world ≡ (ok tt, w)
        → (reconcile_deleted c rule s).1.world
          ≡ (c.update_rule (remove_finalizer rule finalizer_name) w).1
    unfolding reconcile_deleted
    deletion_world w cleaned = rw held (
        ap (λ p. p.1.world)
          (bind-next (call in_a_minute (cleanup_taints_for_rule c rule)) _ s _ tt
            (call-ok in_a_minute (cleanup_taints_for_rule c rule) s tt w cleaned))
        ∙ after_update (record { controller = s.controller; world = w }) _)

    cleaned :
        (p : Result (Unit {0}) × W)
        → cleanup_taints_for_rule c rule s.world ≡ p
        → (reconcile_deleted c rule s).0 ≡ stop no_requeue none
        → (p.0 ≡ ok tt)
          × ((reconcile_deleted c rule s).1.world
              ≡ (c.update_rule (remove_finalizer rule finalizer_name) p.1).1)
    cleaned (ok u, w) e done = (refl, deletion_world w e)
    cleaned (err x, w) e done = cc (ap (λ o. o.0) (deletion_failed x w e))

    -- On a server that no other writer changes and that stores what a patch sends: where the
    -- nodes are listed, if the pass over a deleted rule that has the finalizer ends without an
    -- error, every listed node that the rule applies to is on the server without the rule's taint
    -- afterwards.
    pub reconcile_deleted_cleans :
        (patches : PatchLaw c) (store : TaintStoreLaw c) (nodes : List Node) (node : Node) (w : W)
        → c.list_nodes s.world ≡ (ok nodes, w)
        → IsIn node nodes
        → rule_applies_to c rule node ≡ true
        → (reconcile_deleted c rule s).0 ≡ stop no_requeue none
        → IsClean c patches store rule.spec.taint (reconcile_deleted c rule s).1.world node.name
    reconcile_deleted_cleans patches store nodes node w listed here applies done =
        let (success, world) = cleaned _ refl done in
        let (stored, found, clean) =
          cleanup_taints_cleans c patches store rule nodes node s.world w listed here applies
            success in
        (
          stored,
          ap (λ v. (c.get_node node.name v).0) world
              ∙ store.update_rule_others (remove_finalizer rule finalizer_name) node.name
                  (cleanup_taints_for_rule c rule s.world).1
              ∙ found,
          clean,
        )

    -- The clean-up leaves the rules as they are.
    removal_rules :
        (calls : NodeCallLaw c) (chosen : Node → Bool) (spec : Taint) (m : String)
        (nodes : List Node) (errors : List String) (w : W)
        → (c.get_rule m (remove_taints c chosen spec nodes errors w).1).0 ≡ (c.get_rule m w).0
    unfolding remove_taints remove_taint_by_spec
    removal_rules calls chosen spec m [] errors w = refl
    removal_rules calls chosen spec m (node ∷ rest) errors w =
        let removed = remove_taint_by_spec c node spec w in
        elim (Bool-cases (chosen node && has_taint_by_spec node spec)) [
          | inl e ↦ rw e (
              removal_rules calls chosen spec m rest (note_error errors removed) removed.2
              ∙ ap (λ v. (c.get_rule m v).0) (after_patch_world (without_taint node spec) _)
              ∙ calls.patch_node_rules node (without_taint node spec) m w)
          | inr e ↦ rw e (removal_rules calls chosen spec m rest errors w)
        ]

    listed_rules :
        (calls : NodeCallLaw c) (m : String) (p : Result (List Node) × W)
        → (c.get_rule m (cleanup_listed c rule p).1).0 ≡ (c.get_rule m p.1).0
    listed_rules calls m (err e, w) = refl
    listed_rules calls m (ok nodes, w) =
        removal_rules calls (rule_applies_to c rule) rule.spec.taint m nodes [] w

    cleanup_rules :
        (calls : NodeCallLaw c) (m : String) (w : W)
        → (c.get_rule m (cleanup_taints_for_rule c rule w).1).0 ≡ (c.get_rule m w).0
    unfolding cleanup_taints_for_rule
    cleanup_rules calls m w = listed_rules calls m (c.list_nodes w) ∙ calls.list_nodes_rules m w

    -- On a server that no other writer changes and that stores what a patch sends, and whose
    -- listings and patches of nodes leave the rules alone: where the nodes are listed, whatever
    -- fails in the pass over a deleted rule that has the finalizer and whatever answer it gives,
    -- each listed node that the rule applies to is on the server without the rule's taint
    -- afterwards, or the server still has the rule as it was, finalizer included.
    pub reconcile_deleted_keeps :
        (patches : PatchLaw c) (store : TaintStoreLaw c) (calls : NodeCallLaw c) (nodes : List Node)
        (node : Node) (w : W)
        → c.list_nodes s.world ≡ (ok nodes, w)
        → IsIn node nodes
        → rule_applies_to c rule node ≡ true
        → IsClean c patches store rule.spec.taint (reconcile_deleted c rule s).1.world node.name
          ⊎ ((c.get_rule rule.name (reconcile_deleted c rule s).1.world).0
              ≡ (c.get_rule rule.name s.world).0)
    reconcile_deleted_keeps patches store calls nodes node w listed here applies =
        elim (Result-cases (cleanup_taints_for_rule c rule s.world).0) [
          | inl success ↦
              let (stored, found, clean) =
                cleanup_taints_cleans c patches store rule nodes node s.world w listed here applies
                  success in
              let world =
                deletion_world (cleanup_taints_for_rule c rule s.world).1
                  (ap (λ r. (r, (cleanup_taints_for_rule c rule s.world).1)) success) in
              inl (
                stored,
                ap (λ v. (c.get_node node.name v).0) world
                    ∙ store.update_rule_others (remove_finalizer rule finalizer_name) node.name
                        (cleanup_taints_for_rule c rule s.world).1
                    ∙ found,
                clean,
              )
          | inr (e, failed) ↦ inr (
              ap (λ o. (c.get_rule rule.name o.1.world).0)
                (deletion_failed e _
                  (ap (λ r. (r, (cleanup_taints_for_rule c rule s.world).1)) failed))
              ∙ cleanup_rules calls rule.name s.world)
        ]
