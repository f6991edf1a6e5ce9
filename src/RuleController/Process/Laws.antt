-- ===== src/RuleController/Process/Laws.antt =====
-- About processAllNodesForRule: the fields of the rule after it.
use mathlib.Core.List.{append_assoc, append-nil}
use node_readiness_controlle.Prelude.{
  String, List, [], ◌∷◌, ◌++◌, none, some, ◌≡◌, inl, inr, refl, arith, map, keep_if, ◌∙◌, sym,
  subst, Bool-cases,
}
use node_readiness_controlle.Api.{Node, NodeReadinessRule}
use node_readiness_controlle.Platform.{Result, ok, err, error_string, Client}
use node_readiness_controlle.RuleController.Status.{record_node_failure}
use node_readiness_controlle.RuleController.Status.Laws.{
  IsDistinct, HasDistinctFailures, record_node_failure-HasDistinctFailures,
}
use node_readiness_controlle.RuleController.Cache.{rule_applies_to}
use node_readiness_controlle.RuleController.Evaluate.{Evaluated, evaluate_rule_for_node}
use node_readiness_controlle.RuleController.Evaluate.Outcome.{
  evaluate_keeps, evaluate_keeps_failures, evaluate-IsDistinct,
}
use node_readiness_controlle.RuleController.Process.{
  note_failure, process_nodes, process_listed, process_all_nodes_for_rule,
}

pub ok_injective : {A : Type 0} {a b : A} → ok a ≡ ok b → a ≡ b
ok_injective e = cc

module _ {W S : Type 0} (c : Client W S) where
  note_failure_keeps :
      (out : Evaluated c)
      → ((note_failure c out).spec ≡ out.0.spec)
        × ((note_failure c out).generation ≡ out.0.generation)
        × ((note_failure c out).name ≡ out.0.name)
  unfolding record_node_failure
  note_failure_keeps (rule, node, none, w) = (refl, refl, refl)
  note_failure_keeps (rule, node, some e, w) = (refl, refl, refl)

  -- Evaluating a rule changes neither its spec nor its generation nor its name.
  pub evaluated_keeps :
      (rule : NodeReadinessRule) (node : Node) (w : W)
      → let rule' = note_failure c (evaluate_rule_for_node c rule node w) in
        (rule'.spec ≡ rule.spec) × (rule'.generation ≡ rule.generation) × (rule'.name ≡ rule.name)
  evaluated_keeps rule node w =
      let out = evaluate_rule_for_node c rule node w in
      let (s, g, n) = note_failure_keeps out in
      let (s', g', n') = evaluate_keeps c rule node w in (s ∙ s', g ∙ g', n ∙ n')

  pub applies_by_spec :
      (rule rule' : NodeReadinessRule) (node : Node)
      → rule.spec ≡ rule'.spec
      → rule_applies_to c rule node ≡ rule_applies_to c rule' node
  unfolding rule_applies_to
  applies_by_spec rule rule' node e = rw e

  -- The names of the nodes of a list that a rule applies to.
  abbrev pub applied_names : NodeReadinessRule → List Node → List String
  applied_names rule nodes = map (λ node. node.name) (keep_if (rule_applies_to c rule) nodes)

  process_nodes_applied :
      (first rule : NodeReadinessRule) (nodes : List Node) (applied : List String) (w : W)
      → rule.spec ≡ first.spec
      → (process_nodes c rule nodes applied w).1 ≡ applied ++ applied_names first nodes
  unfolding process_nodes
  process_nodes_applied first rule [] applied w e = sym (append-nil applied)
  process_nodes_applied first rule (node ∷ rest) applied w e =
      let evaluated = evaluate_rule_for_node c rule node w in
      ground (
        arith,
        applies_by_spec rule first node e,
        process_nodes_applied first rule rest applied w e,
        process_nodes_applied first (note_failure c evaluated) rest (applied ++ node.name ∷ [])
            evaluated.3 ((evaluated_keeps rule node w).0 ∙ e),
        append_assoc applied (node.name ∷ []) (applied_names first rest),
      )

  -- What one evaluation keeps, the whole loop keeps.
  pub process_nodes_inv :
      (P : NodeReadinessRule → Type 0)
      → ((rule : NodeReadinessRule) (node : Node) (w : W)
          → P rule
          → P (note_failure c (evaluate_rule_for_node c rule node w)))
      → (rule : NodeReadinessRule) (nodes : List Node) (applied : List String) (w : W) → P rule
      → P (process_nodes c rule nodes applied w).0
  unfolding process_nodes
  process_nodes_inv P step rule [] applied w h = h
  process_nodes_inv P step rule (node ∷ rest) applied w h =
      let evaluated = evaluate_rule_for_node c rule node w in
      elim (Bool-cases (rule_applies_to c rule node)) [
        | inl e ↦ rw e (
            process_nodes_inv P step (note_failure c evaluated) rest (applied ++ node.name ∷ [])
              evaluated.3 (step rule node w h))
        | inr e ↦ rw e (process_nodes_inv P step rule rest applied w h)
      ]

  -- No node has two evaluations, and no node has two failures.
  abbrev pub HasDistinctStatus : NodeReadinessRule → Type 0
  HasDistinctStatus rule =
      IsDistinct rule.status.node_evaluations × HasDistinctFailures rule.status.failed_nodes

  note_failure-HasDistinctStatus :
      (out : Evaluated c) → HasDistinctStatus out.0 → HasDistinctStatus (note_failure c out)
  unfolding record_node_failure
  note_failure-HasDistinctStatus (rule, node, none, w) h = h
  note_failure-HasDistinctStatus (rule, node, some e, w) h = (
    record_keeps rule node.name (error_string e) w h.0,
    record_node_failure-HasDistinctFailures rule node.name "EvaluationError" (error_string e)
        (c.now w) h.1,
  )
    where
      record_keeps :
          (rule : NodeReadinessRule) (n m : String) (w : W)
          → IsDistinct rule.status.node_evaluations
          → IsDistinct
              (record_node_failure rule n "EvaluationError" m (c.now w)).status.node_evaluations
      record_keeps rule n m w h = h

  evaluated-HasDistinctStatus :
      (rule : NodeReadinessRule) (node : Node) (w : W)
      → HasDistinctStatus rule
      → HasDistinctStatus (note_failure c (evaluate_rule_for_node c rule node w))
  evaluated-HasDistinctStatus rule node w h =
      note_failure-HasDistinctStatus (evaluate_rule_for_node c rule node w) (
        evaluate-IsDistinct c rule node w h.0,
        subst HasDistinctFailures (sym (evaluate_keeps_failures c rule node w)) h.1,
      )

  process_nodes_keeps :
      (rule : NodeReadinessRule) (nodes : List Node) (w : W)
      → let rule' = (process_nodes c rule nodes [] w).0 in
        (rule'.spec ≡ rule.spec) × (rule'.generation ≡ rule.generation) × (rule'.name ≡ rule.name)
  process_nodes_keeps rule nodes w =
      process_nodes_inv
        (λ r. (r.spec ≡ rule.spec) × (r.generation ≡ rule.generation) × (r.name ≡ rule.name))
        (λ r node v h. let (s, g, n) = evaluated_keeps r node v in (s ∙ h.0, g ∙ h.1, n ∙ h.2)) rule
        nodes [] w (refl, refl, refl)

  -- Where the nodes are listed, a pass over all nodes reports no error, whatever fails on a node;
  -- it notes as applied exactly the names of the listed nodes that the rule applies to, in the
  -- order of the listing, notes the generation of the rule, and leaves its spec and its name as
  -- they were.
  pub process_all_nodes_lem :
      (rule : NodeReadinessRule) (nodes : List Node) (w w' : W)
      → c.list_nodes w ≡ (ok nodes, w')
      → (rule' : NodeReadinessRule) × ((process_all_nodes_for_rule c rule w).0 ≡ ok rule')
        × (rule'.status.applied_nodes ≡ applied_names rule nodes)
        × (rule'.status.observed_generation ≡ rule.generation)
        × (rule'.spec ≡ rule.spec)
        × (rule'.name ≡ rule.name)
  unfolding process_all_nodes_for_rule
  process_all_nodes_lem rule nodes w w' e = rw e (
    _,
    refl,
    process_nodes_applied rule rule nodes [] w' refl,
    (process_nodes_keeps rule nodes w').1,
    (process_nodes_keeps rule nodes w').0,
    (process_nodes_keeps rule nodes w').2,
  )

  listed-HasDistinctStatus :
      (rule rule' : NodeReadinessRule) (p : Result (List Node) × W)
      → HasDistinctStatus rule
      → (process_listed c rule p).0 ≡ ok rule'
      → HasDistinctStatus rule'
  listed-HasDistinctStatus rule rule' (err e, w) h done = cc
  listed-HasDistinctStatus rule rule' (ok nodes, w) h done =
      subst HasDistinctStatus (ok_injective done)
        (process_nodes_inv HasDistinctStatus evaluated-HasDistinctStatus rule nodes [] w h)

  -- If no node has two evaluations or two failures in the status of the rule, then a pass over
  -- all nodes that reports no error leaves no node with two evaluations or two failures.
  pub process_all_nodes-HasDistinctStatus :
      (rule rule' : NodeReadinessRule) (w : W)
      → HasDistinctStatus rule
      → (process_all_nodes_for_rule c rule w).0 ≡ ok rule'
      → HasDistinctStatus rule'
  unfolding process_all_nodes_for_rule
  process_all_nodes-HasDistinctStatus rule rule' w =
      listed-HasDistinctStatus rule rule' (c.list_nodes w)
