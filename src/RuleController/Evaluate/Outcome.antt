-- ===== src/RuleController/Evaluate/Outcome.antt =====
-- About evaluateRuleForNode: the taint, the status, the error and the world after it.
use node_readiness_controlle.Prelude.{
  Bool, true, false, not, List, Option, none, some, ◌≡◌, ◌↔◌, [], ◌∷◌, if◌then◌else◌, eq_iff, map,
  arith, eq_refl, refl,
}
use node_readiness_controlle.Api.{
  Node, NodeReadinessRule, ConditionEvaluationResult, ConditionRequirement, NodeEvaluation, present,
  absent,
}
use node_readiness_controlle.NodeController.Conditions.{get_condition_status}
use node_readiness_controlle.Platform.{Error, Client}
use node_readiness_controlle.Platform.Laws.{PatchLaw}
use node_readiness_controlle.NodeController.Taints.{has_taint_by_spec}
use node_readiness_controlle.NodeController.Taints.Laws.{
  remove_taint_removes, add_taint_adds, remove_taint_name, add_taint_name,
}
use node_readiness_controlle.RuleController.Status.{update_node_evaluation_status}
use node_readiness_controlle.RuleController.Status.Laws.{
  find_evaluation, evaluation_of, IsDistinct, find_evaluation-update,
  update_node_evaluation_status-IsDistinct,
}
use node_readiness_controlle.RuleController.Evaluate.{
  Evaluated, evaluate_condition, observed_status, finish_evaluation, after_removal, after_addition,
  act, evaluate_rule_for_node,
}
use node_readiness_controlle.RuleController.Evaluate.Conditions.{
  MeetsAll, meets_all, meets_all_sound, meets_all_complete, evaluate_conditions_lem,
}

-- The results are those of the requirements, in their order: each has its condition's type and
-- both statuses, and says whether they agree and whether the node's is Unknown.
abbrev pub Reports : Node → List ConditionRequirement → List ConditionEvaluationResult → Type 0
Reports node [] [] = Unit
Reports node (req ∷ reqs) (result ∷ results) =
    (result.cond_type ≡ req.cond_type)
    × (result.current_status ≡ get_condition_status node req.cond_type)
    × (result.required_status ≡ req.required_status)
    × ((result.satisfied ≡ true) ↔ (get_condition_status node req.cond_type ≡ req.required_status))
    × ((result.missing ≡ true) ↔ (get_condition_status node req.cond_type ≡ "Unknown"))
    × Reports node reqs results
Reports node [] (result ∷ results) = ⊥
Reports node (req ∷ reqs) [] = ⊥

results-Reports :
    (node : Node) (reqs : List ConditionRequirement)
    → Reports node reqs (map (evaluate_condition node) reqs)
results-Reports node [] = tt
results-Reports node (req ∷ reqs) = (
  refl,
  refl,
  refl,
  eq_iff (get_condition_status node req.cond_type) req.required_status,
  eq_iff (get_condition_status node req.cond_type) "Unknown",
  results-Reports node reqs,
)

status_iff :
    (b : Bool)
    → ((some (if b then present else absent) ≡ some present) ↔ (b ≡ true))
      × ((some (if b then present else absent) ≡ some absent) ↔ (b ≡ false))
status_iff true = ((λ e. refl, λ e. refl), (λ e. cc, λ e. cc))
status_iff false = ((λ e. cc, λ e. cc), (λ e. refl, λ e. refl))

module _ {W S : Type 0} (c : Client W S) (rule : NodeReadinessRule) (node : Node) (w : W) where
  abbrev pub results : List ConditionEvaluationResult
  results = map (evaluate_condition node) rule.spec.conditions

  -- The evaluation with its loop replaced by the test of the requirements.
  pub evaluate_lem :
      evaluate_rule_for_node c rule node w
      ≡ act c rule node
          (meets_all node rule.spec.conditions)
          (has_taint_by_spec node rule.spec.taint)
          results
          w
  unfolding evaluate_rule_for_node
  evaluate_lem = ground (arith, evaluate_conditions_lem node rule.spec.conditions)

  pub act_settles :
      PatchLaw c
      → (b : Bool) → (act c rule node b (has_taint_by_spec node rule.spec.taint) results w).2 ≡ none
      → has_taint_by_spec
          (act c rule node b (has_taint_by_spec node rule.spec.taint) results w).1
          rule.spec.taint
        ≡ not b
  act_settles patches b done = ground (
    arith,
    remove_taint_removes c patches node rule.spec.taint w,
    add_taint_adds c patches node rule.spec.taint w,
  )

  -- If a patch that changes the taints and succeeds gives back the taints that were sent, then an
  -- evaluation that reports no error leaves the node that the caller holds without the rule's
  -- taint exactly when the node meets every required condition of the rule.
  pub evaluate_settles :
      PatchLaw c
      → (evaluate_rule_for_node c rule node w).2 ≡ none
      → (has_taint_by_spec (evaluate_rule_for_node c rule node w).1 rule.spec.taint ≡ false)
        ↔ MeetsAll node rule.spec.conditions
  evaluate_settles patches = rw evaluate_lem (λ done. (
    (λ h.
        meets_all_sound node rule.spec.conditions
          (ground (arith, act_settles patches (meets_all node rule.spec.conditions) done))),
    (λ h. ground (
      arith,
      meets_all_complete node rule.spec.conditions h,
      act_settles patches (meets_all node rule.spec.conditions) done,
    )),
  ))

  -- A node that has the taint exactly when it misses a requirement of the rule is left as it is:
  -- the evaluation reports no error and leaves the node and the world unchanged.
  pub evaluate_settled :
      has_taint_by_spec node rule.spec.taint ≡ not (meets_all node rule.spec.conditions)
      → ((evaluate_rule_for_node c rule node w).1 ≡ node)
        × ((evaluate_rule_for_node c rule node w).2 ≡ none)
        × ((evaluate_rule_for_node c rule node w).3 ≡ w)
  evaluate_settled h = rw evaluate_lem (ground arith)

  -- If an evaluation reports an error, the rule and its status are as they were.
  pub evaluate_failed :
      {e : Error}
      → (evaluate_rule_for_node c rule node w).2 ≡ some e
      → (evaluate_rule_for_node c rule node w).0 ≡ rule
  evaluate_failed = rw evaluate_lem (λ h. ground arith)

  -- Every evaluation ends at the end of the function or with an error and the rule unchanged.
  module _ (P : Evaluated c → Type 0)
      (finished : (n : Node) (v : W) → P (finish_evaluation c rule results n v))
      (failed : (n : Node) (e : Error) (v : W) → P (rule, n, some e, v)) where
    removal_rule : (p : Node × Option Error × W) → P (after_removal c rule results p)
    removal_rule (n, some e, v) = failed n _ v
    removal_rule (n, none, v) = finished n _

    addition_rule : (p : Node × Option Error × W) → P (after_addition c rule results p)
    addition_rule (n, some e, v) = failed n _ v
    addition_rule (n, none, v) = finished n _

    act_rule : (b has : Bool) → P (act c rule node b has results w)
    act_rule true true = removal_rule _
    act_rule true false = finished node w
    act_rule false true = finished node w
    act_rule false false = addition_rule _

    pub evaluate_rule : P (evaluate_rule_for_node c rule node w)
    evaluate_rule =
        rw evaluate_lem
          (act_rule (meets_all node rule.spec.conditions) (has_taint_by_spec node rule.spec.taint))

  -- The entry in the status.
  pub evaluate_entry :
      (evaluate_rule_for_node c rule node w).2 ≡ none
      → let (rule', node', _, w') = evaluate_rule_for_node c rule node w in
        find_evaluation node'.name rule'.status.node_evaluations
        ≡ some (evaluation_of node'.name results (observed_status node' rule.spec.taint) (c.now w'))
  evaluate_entry =
      evaluate_rule
        (λ out.
          out.2 ≡ none
          → find_evaluation out.1.name out.0.status.node_evaluations
            ≡ some (
                evaluation_of out.1.name results (observed_status out.1 rule.spec.taint)
                  (c.now out.3)))
        (λ n v done. ground (
          arith,
          eq_refl n.name,
          find_evaluation-update rule n.name results (observed_status n rule.spec.taint) (c.now v)
              n.name,
        ))
        (λ n e v done. cc)

  -- If an evaluation reports no error, the status of the rule has an entry of the node with one
  -- result for each required condition, in their order, and the time of the end. A result has the
  -- condition's type, its status on the node and the required one, is satisfied exactly when the
  -- two agree, and missing exactly when the status is Unknown; the entry says Present exactly
  -- when the node that the evaluation ends with has the taint, and Absent exactly when it does
  -- not.
  pub evaluate_records :
      (evaluate_rule_for_node c rule node w).2 ≡ none
      → let (rule', node', _, w') = evaluate_rule_for_node c rule node w in
        (entry : NodeEvaluation) × (find_evaluation node'.name rule'.status.node_evaluations
          ≡ some entry)
        × Reports node rule.spec.conditions entry.condition_results
        × ((entry.taint_status ≡ some present) ↔ (has_taint_by_spec node' rule.spec.taint ≡ true))
        × ((entry.taint_status ≡ some absent) ↔ (has_taint_by_spec node' rule.spec.taint ≡ false))
        × (entry.last_evaluation_time ≡ c.now w')
  evaluate_records done = (
    _,
    evaluate_entry done,
    results-Reports node rule.spec.conditions,
    (status_iff _).0,
    (status_iff _).1,
    refl,
  )

  -- No evaluation gives a node a second entry.
  pub evaluate-IsDistinct :
      IsDistinct rule.status.node_evaluations
      → IsDistinct (evaluate_rule_for_node c rule node w).0.status.node_evaluations
  evaluate-IsDistinct h =
      evaluate_rule (λ out. IsDistinct out.0.status.node_evaluations)
        (λ n v.
          update_node_evaluation_status-IsDistinct rule n.name results
            (observed_status n rule.spec.taint) (c.now v) h)
        (λ n e v. h)

  -- An evaluation changes neither the spec nor the generation nor the name of the rule.
  pub evaluate_keeps :
      let rule' = (evaluate_rule_for_node c rule node w).0 in
      (rule'.spec ≡ rule.spec) × (rule'.generation ≡ rule.generation) × (rule'.name ≡ rule.name)
  unfolding update_node_evaluation_status
  evaluate_keeps =
      evaluate_rule
        (λ out.
          (out.0.spec ≡ rule.spec)
          × (out.0.generation ≡ rule.generation)
          × (out.0.name ≡ rule.name))
        (λ n v. (refl, refl, refl)) (λ n e v. (refl, refl, refl))

  -- Nor does it touch the failures.
  pub evaluate_keeps_failures :
      (evaluate_rule_for_node c rule node w).0.status.failed_nodes ≡ rule.status.failed_nodes
  unfolding update_node_evaluation_status
  evaluate_keeps_failures =
      evaluate_rule (λ out. out.0.status.failed_nodes ≡ rule.status.failed_nodes) (λ n v. refl)
        (λ n e v. refl)

  act_node_name :
      PatchLaw c
      → (b : Bool)
      → (act c rule node b (has_taint_by_spec node rule.spec.taint) results w).1.name ≡ node.name
  act_node_name patches b = ground (
    arith,
    remove_taint_name c patches node rule.spec.taint w,
    add_taint_name c patches node rule.spec.taint w,
  )

  -- The node that the caller holds keeps its name.
  pub evaluate_node_name : PatchLaw c → (evaluate_rule_for_node c rule node w).1.name ≡ node.name
  evaluate_node_name patches =
      rw evaluate_lem (act_node_name patches (meets_all node rule.spec.conditions))
