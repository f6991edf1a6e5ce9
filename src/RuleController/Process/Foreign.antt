-- ===== src/RuleController/Process/Foreign.antt =====
-- About processAllNodesForRule: the taints on the server that are not the rule's.
use node_readiness_controlle.Prelude.{
  String, List, [], ◌∷◌, ◌++◌, none, ◌==◌, ◌≡◌, refl, ap, ◌∙◌, sym, subst, arith, eq_iff,
  Bool-cases, inl, inr,
}
use node_readiness_controlle.Api.{Taint, Node, NodeReadinessRule}
use node_readiness_controlle.Platform.{ok, Client}
use node_readiness_controlle.Platform.Laws.{HasDistinctNames}
use node_readiness_controlle.NodeController.Taints.Stored.{read_others, others_view}
use node_readiness_controlle.RuleController.Status.Laws.{find_failure}
use node_readiness_controlle.RuleController.Cache.{rule_applies_to}
use node_readiness_controlle.RuleController.Evaluate.{evaluate_rule_for_node}
use node_readiness_controlle.RuleController.Evaluate.Stored.{
  NodeLaws, evaluate_foreign, evaluate_others,
}
use node_readiness_controlle.RuleController.Process.{
  note_failure, process_nodes, process_all_nodes_for_rule,
}
use node_readiness_controlle.RuleController.Process.Laws.{evaluated_keeps, ok_injective}
use node_readiness_controlle.RuleController.Process.Refinement.{AllCurrent, still_current, no_error}

module _ {W S : Type 0} (c : Client W S) (laws : NodeLaws c) where
  evaluated_foreign :
      (spec : Taint) (rule : NodeReadinessRule) (node : Node) (n : String) (w : W)
      → rule.spec.taint ≡ spec
      → (c.get_node node.name w).0 ≡ ok node
      → (node.name ≡ n → (evaluate_rule_for_node c rule node w).2 ≡ none)
      → others_view c spec n (evaluate_rule_for_node c rule node w).3 ≡ others_view c spec n w
  evaluated_foreign spec rule node n w h current done = elim (Bool-cases (node.name == n)) [
    | inl same ↦
        let here : node.name ≡ n = (eq_iff node.name n).0 same in
        subst
          (λ k.
            others_view c spec k (evaluate_rule_for_node c rule node w).3 ≡ others_view c spec k w)
          here
          (subst
            (λ t.
              others_view c t node.name (evaluate_rule_for_node c rule node w).3
              ≡ others_view c t node.name w)
            h (evaluate_foreign c laws rule node w current (done here)))
    | inr apart ↦
        ap (read_others spec)
          (evaluate_others c laws rule node w n (λ e. ground (arith, eq_iff node.name n)))
  ]

  process_nodes_foreign :
      (spec : Taint) (rule : NodeReadinessRule) (nodes : List Node) (applied : List String) (w : W)
      (n : String) (out : NodeReadinessRule × List String × W)
      → rule.spec.taint ≡ spec
      → AllCurrent c w nodes
      → HasDistinctNames nodes
      → process_nodes c rule nodes applied w ≡ out
      → find_failure n out.0.status.failed_nodes ≡ none
      → others_view c spec n out.2 ≡ others_view c spec n w
  unfolding process_nodes
  process_nodes_foreign spec rule [] applied w n out h current distinct q fine =
      ap (λ o. others_view c spec n o.2) (sym q)
  process_nodes_foreign spec rule (node ∷ rest) applied w n out h current distinct q fine =
      let evaluated = evaluate_rule_for_node c rule node w in
      elim (Bool-cases (rule_applies_to c rule node)) [
        | inl t ↦
            let next : process_nodes c (note_failure c evaluated) rest (applied ++ node.name ∷ [])
                  evaluated.3
                ≡ out =
              rw t at q in
            process_nodes_foreign spec (note_failure c evaluated) rest (applied ++ node.name ∷ [])
              evaluated.3 n out (ap (λ s. s.taint) (evaluated_keeps c rule node w).0 ∙ h)
              (still_current c laws rule node w rest distinct.0 current.1) distinct.1 next fine
            ∙ evaluated_foreign spec rule node n w h current.0 (λ named.
              no_error c laws rule node w rest _ n named
                (ap (λ o. find_failure n o.0.status.failed_nodes) next ∙ fine))
        | inr f ↦
            process_nodes_foreign spec rule rest applied w n out h current.1 distinct.1 (rw f at q)
              fine
      ]

  -- The taints of another key or effect stay on a node that the pass notes no failure of.
  pub process_all_nodes_foreign :
      (rule rule' : NodeReadinessRule) (nodes : List Node) (n : String) (w w' w'' : W)
      → c.list_nodes w ≡ (ok nodes, w')
      → process_all_nodes_for_rule c rule w ≡ (ok rule', w'')
      → find_failure n rule'.status.failed_nodes ≡ none
      → others_view c rule.spec.taint n w'' ≡ others_view c rule.spec.taint n w'
  unfolding process_all_nodes_for_rule
  process_all_nodes_foreign rule rule' nodes n w w' w'' e = rw e (λ done fine.
      ap (others_view c rule.spec.taint n) (ap (λ o. o.1) (sym done))
      ∙ process_nodes_foreign rule.spec.taint rule nodes [] w' n _ refl
          (laws.store.list_nodes_current nodes w w' e).0
          (laws.store.list_nodes_current nodes w w' e).1 refl
          (ap (λ r. find_failure n r.status.failed_nodes) (ok_injective (ap (λ o. o.0) done))
            ∙ fine))
