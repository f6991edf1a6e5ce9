-- ===== src/System/Completion.antt =====
-- About the completion annotation of a node, across any number of passes of both reconcilers.
use node_readiness_controlle.Prelude.{
  String, List, [], ◌∷◌, All, true, ◌==◌, ◌≡◌, refl, ap, sym, subst, ◌∙◌, arith, eq_iff,
  contains_key, insert, lookup-insert, StringMap, Bool-cases, inl, inr,
}
use node_readiness_controlle.Api.{Node, NodeReadinessRule}
use node_readiness_controlle.Platform.{Result, ok, err, Client}
use node_readiness_controlle.Platform.Laws.{RetryLaw, NodeWriteLaw, RuleCallLaw, AnnotationLaw}
use node_readiness_controlle.NodeController.Taints.{with_taint, without_taint}
use node_readiness_controlle.NodeController.Bootstrap.{annotation_key, mark}
use node_readiness_controlle.RuleController.Finalizer.{
  finalizer_name, add_finalizer, remove_finalizer,
}
use node_readiness_controlle.RuleController.Reconcile.{State}
use node_readiness_controlle.System.{
  Step, rule_event, node_event, dry_run_switch, outside, Runs, here, later,
}
use node_readiness_controlle.System.Trace.{
  Trace, nothing, get_rule_call, list_nodes_call, get_node_call, add_taint_call, remove_taint_call,
  mark_call, add_finalizer_call, remove_finalizer_call, status_call,
}
use node_readiness_controlle.RuleController.Process.Laws.{ok_injective}
use node_readiness_controlle.System.Writes.{reconcile_rule-Trace, reconcile_node-Trace}

contains_key-insert :
    (k j : String) (v : String) (m : StringMap String)
    → contains_key k m ≡ true
    → contains_key k (insert j v m) ≡ true
contains_key-insert k j v m h = ground (arith, lookup-insert j k v m)

module _ {W S : Type 0} (c : Client W S) (n rule_name : String) where
  -- The server knows the node, with the annotation of the rule.
  abbrev pub IsCompleted : W → Type 0
  IsCompleted w =
      (node : Node) × ((c.get_node n w).0 ≡ ok node)
      × (contains_key (annotation_key rule_name) node.annotations ≡ true)

  module _ (writes : NodeWriteLaw c) (calls : RuleCallLaw c) (annotations : AnnotationLaw c) where
    same-IsCompleted :
        {v w : W} → (c.get_node n v).0 ≡ (c.get_node n w).0 → IsCompleted w → IsCompleted v
    same-IsCompleted e (node, found, has) = (node, e ∙ found, has)

    patch-IsCompleted :
        (base changed : Node) (w : W)
        → changed ≡ record base { taints = changed.taints }
        → IsCompleted w
        → IsCompleted (c.patch_node base changed w).1
    patch-IsCompleted base changed w only (node, found, has) =
        let (fresh, stored, same) =
          annotations.patch_node_annotations base changed.taints n node w found in
        subst (λ x. IsCompleted (c.patch_node base x w).1) (sym only)
          (fresh, stored, ap (contains_key (annotation_key rule_name)) same ∙ has)

    updated-IsCompleted :
        (m r : String) (node : Node) (v w : W) (p : Result Node × W)
        → c.get_node m v ≡ (ok node, w)
        → c.update_node (mark (annotation_key r) node) w ≡ p
        → IsCompleted v
        → IsCompleted p.1
    updated-IsCompleted m r node v w (err e, w') q u done =
        same-IsCompleted
          (writes.update_node_fails _ n e w w' u
            ∙ ap (λ x. (c.get_node n x).0) (ap (λ o. o.1) (sym q) ∙ writes.get_node_reads m v))
          done
    updated-IsCompleted m r node v w (ok stored, w') q u done =
        let stays : w ≡ v = ap (λ o. o.1) (sym q) ∙ writes.get_node_reads m v in
        let named = writes.get_node_name m node v w q in
        elim (Bool-cases (m == n)) [
          | inl same ↦
              let here : m ≡ n = (eq_iff m n).0 same in
              let (found, kept) = annotations.update_node_annotations _ stored w w' u in
              let (known, read, has) = done in
              let was : node ≡ known =
                ok_injective (sym (ap (λ o. o.0) q) ∙ ap (λ k. (c.get_node k v).0) here ∙ read) in
              (
                stored,
                subst (λ k. (c.get_node k w').0 ≡ ok stored) (named ∙ here) found,
                ap (contains_key (annotation_key rule_name)) kept
                    ∙ contains_key-insert (annotation_key rule_name) (annotation_key r) "true"
                        node.annotations
                        (ap (λ x. contains_key (annotation_key rule_name) x.annotations) was ∙ has),
              )
          | inr apart ↦
              same-IsCompleted
                (ap (λ o. (c.get_node n o.1).0) (sym u)
                  ∙ writes.update_node_others _ n w (λ e. ground (arith, eq_iff m n))
                  ∙ ap (λ x. (c.get_node n x).0) stays)
                done
        ]

    every_rule : (rules : List NodeReadinessRule) → All (λ rule. Unit {0}) rules
    every_rule [] = tt
    every_rule (rule ∷ rest) = (tt, every_rule rest)

    -- No allowed call takes the annotation away.
    Trace-IsCompleted :
        {start w : W} → Trace c (λ spec. Unit) start w → IsCompleted start → IsCompleted w
    Trace-IsCompleted nothing done = done
    Trace-IsCompleted (get_rule_call m {w} t) done =
        same-IsCompleted (calls.get_rule_nodes m n w) (Trace-IsCompleted t done)
    Trace-IsCompleted (list_nodes_call {w} t) done =
        same-IsCompleted (calls.list_nodes_nodes n w) (Trace-IsCompleted t done)
    Trace-IsCompleted (get_node_call m {w} t) done =
        same-IsCompleted (ap (λ x. (c.get_node n x).0) (writes.get_node_reads m w))
          (Trace-IsCompleted t done)
    Trace-IsCompleted (add_taint_call node spec {w} m t) done =
        patch-IsCompleted node (with_taint node spec) w refl (Trace-IsCompleted t done)
    Trace-IsCompleted (remove_taint_call node spec {w} m t) done =
        patch-IsCompleted node (without_taint node spec) w refl (Trace-IsCompleted t done)
    Trace-IsCompleted (mark_call m r {node} {v} {w} t q) done =
        updated-IsCompleted m r node v w _ q refl (Trace-IsCompleted t done)
    Trace-IsCompleted (add_finalizer_call rule {w} m t) done =
        same-IsCompleted (annotations.update_rule_nodes (add_finalizer rule finalizer_name) n w)
          (Trace-IsCompleted t done)
    Trace-IsCompleted (remove_finalizer_call rule {w} m t) done =
        same-IsCompleted (annotations.update_rule_nodes (remove_finalizer rule finalizer_name) n w)
          (Trace-IsCompleted t done)
    Trace-IsCompleted (status_call m status {latest} {v} {w} t q) done =
        same-IsCompleted
          (calls.update_status_nodes (record latest { status = status }) n w
            ∙ ap (λ o. (c.get_node n o.1).0) (sym q)
            ∙ calls.get_rule_nodes m n v)
          (Trace-IsCompleted t done)

    module _ (retries : RetryLaw c) (Outside : W → W → Type 0)
        (others : (v w : W) → Outside v w → IsCompleted v → IsCompleted w) where
      Step-IsCompleted :
          {s t : State W} → Step c Outside s t → IsCompleted s.world → IsCompleted t.world
      Step-IsCompleted {s} (rule_event name) done =
          Trace-IsCompleted
            (reconcile_rule-Trace c (λ spec. Unit) retries name s (λ n v w rule t q. tt)) done
      Step-IsCompleted {s} (node_event name) done =
          Trace-IsCompleted
            (reconcile_node-Trace c (λ spec. Unit) retries name s (λ node w. every_rule _)) done
      Step-IsCompleted (dry_run_switch b) done = done
      Step-IsCompleted {s} (outside {w} o) done = others s.world w o done

      -- On a server whose reads change nothing, whose calls about rules leave the nodes alone,
      -- that stores what an update sends and keeps annotations when taints are patched, with a
      -- retry that calls again only after a conflict, and with other writers that leave the mark
      -- alone: once a node is marked as completed for a rule, it stays marked across any number
      -- of events of rules and nodes and changes of the switch, in any order.
      pub Runs-IsCompleted :
          {s t : State W} → Runs c Outside s t → IsCompleted s.world → IsCompleted t.world
      Runs-IsCompleted here done = done
      Runs-IsCompleted (later r st) done = Step-IsCompleted st (Runs-IsCompleted r done)
