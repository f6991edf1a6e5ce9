-- ===== src/RuleController/Process/Accounts.antt =====
-- About processAllNodesForRule: the entries of the nodes in the status of the rule.
use node_readiness_controlle.Prelude.{
  String, true, List, [], ◌∷◌, ◌++◌, none, some, ◌≡◌, ◌≢◌, ◌⊎◌, inl, inr, refl, arith, All, IsIn,
  All-IsIn, ◌∙◌, sym, subst, Bool-cases, Option-cases, eq_refl,
}
use node_readiness_controlle.Api.{Node, NodeReadinessRule}
use node_readiness_controlle.Platform.{Error, ok, error_string, Client}
use node_readiness_controlle.Platform.Laws.{PatchLaw}
use node_readiness_controlle.RuleController.Status.{record_node_failure}
use node_readiness_controlle.RuleController.Status.Laws.{
  find_evaluation, find_failure, find_failure-record, find_evaluation-update,
}
use node_readiness_controlle.RuleController.Cache.{rule_applies_to}
use node_readiness_controlle.RuleController.Evaluate.{
  Evaluated, observed_status, evaluate_rule_for_node,
}
use node_readiness_controlle.RuleController.Evaluate.Outcome.{
  evaluate_rule, results, evaluate_entry, evaluate_keeps_failures, evaluate_node_name,
}
use node_readiness_controlle.RuleController.Process.{
  note_failure, process_nodes, process_all_nodes_for_rule,
}
use node_readiness_controlle.RuleController.Process.Laws.{
  process_nodes_inv, applies_by_spec, evaluated_keeps, ok_injective,
}

-- The status has an evaluation or a failure of the node.
abbrev pub IsAccounted : String → NodeReadinessRule → Type 0
IsAccounted n rule =
    (find_evaluation n rule.status.node_evaluations ≢ none)
    ⊎ (find_failure n rule.status.failed_nodes ≢ none)

module _ {W S : Type 0} (c : Client W S) where
  failure_stays :
      (n : String) (rule : NodeReadinessRule) (m message : String) (w : W)
      → find_failure n rule.status.failed_nodes ≢ none
      → find_failure n
          (record_node_failure rule m "EvaluationError" message (c.now w)).status.failed_nodes
        ≢ none
  failure_stays n rule m message w h gone =
      ground (arith, h, gone, find_failure-record rule m "EvaluationError" message (c.now w) n)

  noted_stays :
      (n : String) (out : Evaluated c)
      → find_failure n out.0.status.failed_nodes ≢ none
      → find_failure n (note_failure c out).status.failed_nodes ≢ none
  noted_stays n (rule, node, none, w) h = h
  noted_stays n (rule, node, some e, w) h = failure_stays n rule node.name (error_string e) w h

  -- A failure stays when another node is evaluated.
  pub failure_kept :
      (n : String) (rule : NodeReadinessRule) (node : Node) (w : W)
      → find_failure n rule.status.failed_nodes ≢ none
      → find_failure n (note_failure c (evaluate_rule_for_node c rule node w)).status.failed_nodes
        ≢ none
  failure_kept n rule node w h =
      noted_stays n (evaluate_rule_for_node c rule node w)
        (subst (λ l. find_failure n l ≢ none) (sym (evaluate_keeps_failures c rule node w)) h)

  -- The error of an evaluation is noted as a failure of the node.
  pub failed_noted :
      (out : Evaluated c) (e : Error)
      → out.2 ≡ some e
      → find_failure out.1.name (note_failure c out).status.failed_nodes ≢ none
  failed_noted (rule, node, none, w) e h gone = cc
  failed_noted (rule, node, some x, w) e h gone = ground (
    arith,
    gone,
    eq_refl node.name,
    find_failure-record rule node.name "EvaluationError" (error_string x) (c.now w) node.name,
  )

  note_failure_accounts :
      (n : String) (out : Evaluated c) → IsAccounted n out.0 → IsAccounted n (note_failure c out)
  unfolding record_node_failure
  note_failure_accounts n (rule, node, none, w) h = h
  note_failure_accounts n (rule, node, some e, w) (inl h) = inl h
  note_failure_accounts n (rule, node, some e, w) (inr h) =
      inr (noted_stays n (rule, node, some e, w) h)

  evaluation_keeps :
      (n : String) (rule : NodeReadinessRule) (node : Node) (w : W)
      → find_evaluation n rule.status.node_evaluations ≢ none
      → find_evaluation n (evaluate_rule_for_node c rule node w).0.status.node_evaluations ≢ none
  evaluation_keeps n rule node w h =
      evaluate_rule c rule node w (λ out. find_evaluation n out.0.status.node_evaluations ≢ none)
        (λ m v gone. ground (
          arith,
          h,
          gone,
          find_evaluation-update rule m.name (results c rule node w)
              (observed_status m rule.spec.taint) (c.now v) n,
        ))
        (λ m e v. h)

  evaluated_keeps-IsAccounted :
      (n : String) (rule : NodeReadinessRule) (node : Node) (w : W)
      → IsAccounted n rule
      → IsAccounted n (note_failure c (evaluate_rule_for_node c rule node w))
  evaluated_keeps-IsAccounted n rule node w (inl h) =
      note_failure_accounts n (evaluate_rule_for_node c rule node w)
        (inl (evaluation_keeps n rule node w h))
  evaluated_keeps-IsAccounted n rule node w (inr h) = inr (failure_kept n rule node w h)

  module _ (patches : PatchLaw c) where
    evaluated_accounts :
        (rule : NodeReadinessRule) (node : Node) (w : W)
        → IsAccounted node.name (note_failure c (evaluate_rule_for_node c rule node w))
    evaluated_accounts rule node w =
        subst (λ n. IsAccounted n (note_failure c (evaluate_rule_for_node c rule node w)))
          (evaluate_node_name c rule node w patches)
          (elim (Option-cases (evaluate_rule_for_node c rule node w).2) [
            | inl done ↦
                note_failure_accounts _ (evaluate_rule_for_node c rule node w)
                  (inl (λ gone. cc (gone, evaluate_entry c rule node w done)))
            | inr (e, failed) ↦ inr (failed_noted (evaluate_rule_for_node c rule node w) e failed)
          ])

    process_nodes_accounts :
        (first rule : NodeReadinessRule) (nodes : List Node) (applied : List String) (w : W)
        (out : NodeReadinessRule × List String × W)
        → rule.spec ≡ first.spec
        → process_nodes c rule nodes applied w ≡ out
        → All (λ node. rule_applies_to c first node ≡ true → IsAccounted node.name out.0) nodes
    unfolding process_nodes
    process_nodes_accounts first rule [] applied w out e q = tt
    process_nodes_accounts first rule (node ∷ rest) applied w out e q =
        let evaluated = evaluate_rule_for_node c rule node w in
        elim (Bool-cases (rule_applies_to c rule node)) [
          | inl t ↦
              let next : process_nodes c (note_failure c evaluated) rest (applied ++ node.name ∷ [])
                    evaluated.3
                  ≡ out =
                rw t at q in
              (
                λ applies.
                    subst (λ o. IsAccounted node.name o.0) next
                      (process_nodes_inv c (IsAccounted node.name)
                        (evaluated_keeps-IsAccounted node.name) (note_failure c evaluated) rest
                        (applied ++ node.name ∷ []) evaluated.3 (evaluated_accounts rule node w)),
                process_nodes_accounts first (note_failure c evaluated) rest
                    (applied ++ node.name ∷ []) evaluated.3 out
                    ((evaluated_keeps c rule node w).0 ∙ e) next,
              )
          | inr f ↦
              let next : process_nodes c rule rest applied w ≡ out = rw f at q in
              (
                λ applies. absurd (ground (arith, f, applies, applies_by_spec c rule first node e)),
                process_nodes_accounts first rule rest applied w out e next,
              )
        ]

    -- If a successful patch that changes the taints keeps the node's name, and the nodes are
    -- listed: after a pass over all nodes that reports no error, the status of the rule has an
    -- evaluation or a failure of each listed node that the rule applies to.
    pub process_all_nodes_accounts :
        (rule rule' : NodeReadinessRule) (nodes : List Node) (node : Node) (w w' : W)
        → c.list_nodes w ≡ (ok nodes, w')
        → IsIn node nodes
        → rule_applies_to c rule node ≡ true
        → (process_all_nodes_for_rule c rule w).0 ≡ ok rule'
        → IsAccounted node.name rule'
    unfolding process_all_nodes_for_rule
    process_all_nodes_accounts rule rule' nodes node w w' e here applies = rw e (λ done.
        subst (IsAccounted node.name) (ok_injective done) (
          All-IsIn _ nodes (process_nodes_accounts rule rule nodes [] w' _ refl refl) here applies))
