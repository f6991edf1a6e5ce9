-- ===== src/RuleController/Process/Refinement.antt =====
-- About processAllNodesForRule: the taints on the server after it, against an abstract pass.
use node_readiness_controlle.Prelude.{
  String, Bool, not, List, [], ◌∷◌, ◌++◌, Option, none, some, ◌==◌, ◌&&◌, ◌≡◌, ◌≢◌, refl, ap, ◌∙◌,
  sym, subst, arith, eq_iff, if◌then◌else◌, Bool-cases, Option-cases, inl, inr, All,
}
use node_readiness_controlle.Api.{Node, NodeReadinessRule}
use node_readiness_controlle.Platform.{ok, Client}
use node_readiness_controlle.Platform.Laws.{NotNamed, HasDistinctNames}
use node_readiness_controlle.NodeController.Taints.Stored.{read_taint, taint_view}
use node_readiness_controlle.RuleController.Status.Laws.{find_failure}
use node_readiness_controlle.RuleController.Cache.{rule_applies_to}
use node_readiness_controlle.RuleController.Evaluate.{evaluate_rule_for_node}
use node_readiness_controlle.RuleController.Evaluate.Outcome.{evaluate_node_name}
use node_readiness_controlle.RuleController.Evaluate.Conditions.{meets_all}
use node_readiness_controlle.RuleController.Evaluate.Stored.{
  NodeLaws, evaluate_view, evaluate_others,
}
use node_readiness_controlle.RuleController.Process.{
  note_failure, process_nodes, process_all_nodes_for_rule,
}
use node_readiness_controlle.RuleController.Process.Laws.{
  process_nodes_inv, applies_by_spec, evaluated_keeps, ok_injective,
}
use node_readiness_controlle.RuleController.Process.Accounts.{failure_kept, failed_noted}

module _ {W S : Type 0} (c : Client W S) where
  -- The abstract pass, on the view of one name: a listed node that the rule applies to ends with
  -- the taint exactly when it misses a requirement, and all else stays.
  abbrev pub settled : NodeReadinessRule → List Node → String → Option Bool → Option Bool
  settled rule [] n before = before
  settled rule (node ∷ rest) n before =
      if node.name == n && rule_applies_to c rule node
      then some (not (meets_all node rule.spec.conditions))
      else settled rule rest n before

  settled_absent :
      (rule : NodeReadinessRule) (nodes : List Node) (n : String) (before : Option Bool)
      → NotNamed n nodes
      → settled rule nodes n before ≡ before
  settled_absent rule [] n before h = refl
  settled_absent rule (node ∷ rest) n before h =
      ground (arith, eq_iff node.name n, h.0, settled_absent rule rest n before h.1)

  abbrev pub AllCurrent : W → List Node → Type 0
  AllCurrent w = All (λ node. (c.get_node node.name w).0 ≡ ok node)

  module _ (laws : NodeLaws c) where
    pub still_current :
        (rule : NodeReadinessRule) (node : Node) (w : W) (rest : List Node)
        → NotNamed node.name rest
        → AllCurrent w rest
        → AllCurrent (evaluate_rule_for_node c rule node w).3 rest
    still_current rule node w [] apart current = tt
    still_current rule node w (m ∷ rest) apart current = (
      evaluate_others c laws rule node w m.name (λ e. apart.0 (sym e)) ∙ current.0,
      still_current rule node w rest apart.1 current.1,
    )

    -- A node without a failure at the end was evaluated without an error.
    pub no_error :
        (rule : NodeReadinessRule) (node : Node) (w : W) (rest : List Node) (applied : List String)
        (n : String)
        → node.name ≡ n
        → find_failure n
            (process_nodes c
              (note_failure c (evaluate_rule_for_node c rule node w))
              rest
              applied
              (evaluate_rule_for_node c rule node w).3).0.status.failed_nodes
          ≡ none
        → (evaluate_rule_for_node c rule node w).2 ≡ none
    no_error rule node w rest applied n named fine =
        let evaluated = evaluate_rule_for_node c rule node w in
        elim (Option-cases evaluated.2) [
          | inl done ↦ done
          | inr (e, failed) ↦ absurd (
              process_nodes_inv c (λ r. find_failure n r.status.failed_nodes ≢ none)
                (failure_kept c n) _ rest applied _
                (subst (λ k. find_failure k (note_failure c evaluated).status.failed_nodes ≢ none)
                  (evaluate_node_name c rule node w laws.patches ∙ named)
                  (failed_noted c evaluated e failed))
                fine)
        ]

    module _ (first rule : NodeReadinessRule) (node : Node) (w : W)
        (same : rule.spec ≡ first.spec) where
      own_view :
          (c.get_node node.name w).0 ≡ ok node
          → (evaluate_rule_for_node c rule node w).2 ≡ none
          → taint_view c first.spec.taint node.name (evaluate_rule_for_node c rule node w).3
            ≡ some (not (meets_all node first.spec.conditions))
      own_view current done =
          subst
            (λ s.
              taint_view c s.taint node.name (evaluate_rule_for_node c rule node w).3
              ≡ some (not (meets_all node s.conditions)))
            same (evaluate_view c laws rule node w current done)

      other_view :
          (n : String)
          → node.name ≢ n
          → taint_view c first.spec.taint n (evaluate_rule_for_node c rule node w).3
            ≡ taint_view c first.spec.taint n w
      other_view n apart =
          ap (read_taint first.spec.taint) (evaluate_others c laws rule node w n apart)

    process_nodes_refines :
        (first rule : NodeReadinessRule) (nodes : List Node) (applied : List String) (w : W)
        (n : String) (out : NodeReadinessRule × List String × W)
        → rule.spec ≡ first.spec
        → AllCurrent w nodes
        → HasDistinctNames nodes
        → process_nodes c rule nodes applied w ≡ out
        → find_failure n out.0.status.failed_nodes ≡ none
        → taint_view c first.spec.taint n out.2
          ≡ settled first nodes n (taint_view c first.spec.taint n w)
    unfolding process_nodes
    process_nodes_refines first rule [] applied w n out e current distinct q fine =
        ap (λ o. taint_view c first.spec.taint n o.2) (sym q)
    process_nodes_refines first rule (node ∷ rest) applied w n out e current distinct q fine =
        let evaluated = evaluate_rule_for_node c rule node w in
        elim (Bool-cases (rule_applies_to c rule node)) [
          | inl t ↦
              let next : process_nodes c (note_failure c evaluated) rest (applied ++ node.name ∷ [])
                    evaluated.3
                  ≡ out =
                rw t at q in
              let later =
                process_nodes_refines first (note_failure c evaluated) rest
                  (applied ++ node.name ∷ []) evaluated.3 n out
                  ((evaluated_keeps c rule node w).0 ∙ e)
                  (still_current rule node w rest distinct.0 current.1) distinct.1 next fine in
              elim (Bool-cases (node.name == n)) [
                | inl same ↦
                    let here : node.name ≡ n = (eq_iff node.name n).0 same in
                    let done =
                      no_error rule node w rest (applied ++ node.name ∷ []) n here
                        (ap (λ o. find_failure n o.0.status.failed_nodes) next ∙ fine) in
                    later
                    ∙ settled_absent first rest n _ (subst (λ k. NotNamed k rest) here distinct.0)
                    ∙ ap (λ k. taint_view c first.spec.taint k evaluated.3) (sym here)
                    ∙ own_view first rule node w e current.0 done
                    ∙ ground (arith, applies_by_spec c rule first node e)
                | inr apart ↦
                    later
                    ∙ ap (settled first rest n)
                        (other_view first rule node w e n (λ h. ground (arith, eq_iff node.name n)))
                    ∙ ground arith
              ]
          | inr f ↦
              let next : process_nodes c rule rest applied w ≡ out = rw f at q in
              ground (
                arith,
                f,
                applies_by_spec c rule first node e,
                process_nodes_refines first rule rest applied w n out e current.1 distinct.1 next
                    fine,
              )
        ]

    -- On a server that no other writer changes, that stores what a patch or an update sends, and
    -- with a retry that calls again only after a conflict: where the nodes are listed and the
    -- pass over them reports no error, the pass refines the abstract one. For every name without
    -- a failure in the status after the pass, the node of that name has the rule's taint on the
    -- server exactly when it misses a requirement, if it is listed and the rule applies to it,
    -- and is as it was before, with or without the taint, if not.
    pub process_all_nodes_refines :
        (rule rule' : NodeReadinessRule) (nodes : List Node) (n : String) (w w' w'' : W)
        → c.list_nodes w ≡ (ok nodes, w')
        → process_all_nodes_for_rule c rule w ≡ (ok rule', w'')
        → find_failure n rule'.status.failed_nodes ≡ none
        → taint_view c rule.spec.taint n w''
          ≡ settled rule nodes n (taint_view c rule.spec.taint n w')
    unfolding process_all_nodes_for_rule
    process_all_nodes_refines rule rule' nodes n w w' w'' e = rw e (λ done fine.
        ap (taint_view c rule.spec.taint n) (ap (λ o. o.1) (sym done))
        ∙ process_nodes_refines rule rule nodes [] w' n _ refl
            (laws.store.list_nodes_current nodes w w' e).0
            (laws.store.list_nodes_current nodes w w' e).1 refl
            (ap (λ r. find_failure n r.status.failed_nodes) (ok_injective (ap (λ o. o.0) done))
              ∙ fine))
