-- ===== src/Tests/Evaluations.antt =====
-- The theorems on the evaluation of rules, at the sample cluster.
use node_readiness_controlle.Prelude.{
  All, String, [], arith, at_head, false, in_tail, none, refl, some, true, ℕ, ◌+◌, ◌↔◌, ◌∷◌, ◌≡◌,
  ◌≤◌,
}
use node_readiness_controlle.Api.{Node, NodeEvaluation, NodeReadinessRule, absent, present}
use node_readiness_controlle.Platform.{Result, err, ok}
use node_readiness_controlle.NodeController.Conditions.{status_in}
use node_readiness_controlle.NodeController.Taints.{
  add_taint_by_spec, has_taint_by_spec, remove_taint_by_spec,
}
use node_readiness_controlle.NodeController.Taints.Stored.{taint_view}
use node_readiness_controlle.RuleController.Cache.{rule_applies_to}
use node_readiness_controlle.RuleController.DryRun.{
  count_node, count_nodes, process_dry_run, results_of, simulate_conditions, with_dry_run_results,
  zero_counts,
}
use node_readiness_controlle.RuleController.DryRun.Agreement.{evaluate_as_counted}
use node_readiness_controlle.RuleController.DryRun.Bounds.{process_dry_run_bounds}
use node_readiness_controlle.RuleController.DryRun.Counting.{
  is_risky, process_dry_run_lem, would_add, would_remove,
}
use node_readiness_controlle.RuleController.DryRun.Summary.{process_dry_run_summary}
use node_readiness_controlle.RuleController.Evaluate.{evaluate_conditions, evaluate_rule_for_node}
use node_readiness_controlle.RuleController.Evaluate.Conditions.{MeetsAll, meets_all}
use node_readiness_controlle.RuleController.Evaluate.Convergence.{evaluate_converges}
use node_readiness_controlle.RuleController.Evaluate.Outcome.{
  Reports, evaluate_records, evaluate_settles,
}
use node_readiness_controlle.RuleController.Process.{process_all_nodes_for_rule, process_nodes}
use node_readiness_controlle.RuleController.Process.Accounts.{
  IsAccounted, process_all_nodes_accounts,
}
use node_readiness_controlle.RuleController.Process.Laws.{
  HasDistinctStatus, process_all_nodes-HasDistinctStatus, process_all_nodes_lem,
}
use node_readiness_controlle.RuleController.Process.Refinement.{process_all_nodes_refines, settled}
use node_readiness_controlle.RuleController.Status.{update_node_evaluation_status}
use node_readiness_controlle.RuleController.Status.Laws.{find_evaluation}
use node_readiness_controlle.Tests.Sample.{
  cluster, listed, network_rule, network_spec, network_taint, ready_node, sample, second_node,
  unready_node,
}
use node_readiness_controlle.Tests.SampleLaws.{sample_conditions, sample_laws, sample_patch}

-- A node that is not ready and has the taint.
abbrev waiting_node : Node
waiting_node = second_node (record { taints = network_taint ∷ []; annotations = [] })

-- A node that the server does not know.
abbrev ghost : Node
ghost = record ready_node { name = "worker-3" }

evaluate_settles_example :
    (has_taint_by_spec
        (evaluate_rule_for_node sample network_rule ready_node cluster).1
        network_taint
      ≡ false)
    ↔ MeetsAll ready_node network_spec.conditions
unfolding evaluate_rule_for_node evaluate_conditions status_in has_taint_by_spec
    remove_taint_by_spec
evaluate_settles_example = evaluate_settles sample network_rule ready_node cluster sample_patch refl

evaluate_records_example :
    let (rule', node', _, w') = evaluate_rule_for_node sample network_rule ready_node cluster in
    (entry : NodeEvaluation) × (find_evaluation "worker-1" rule'.status.node_evaluations
      ≡ some entry)
    × Reports ready_node network_spec.conditions entry.condition_results
    × ((entry.taint_status ≡ some present) ↔ (has_taint_by_spec node' network_taint ≡ true))
    × ((entry.taint_status ≡ some absent) ↔ (has_taint_by_spec node' network_taint ≡ false))
    × (entry.last_evaluation_time ≡ 7)
unfolding evaluate_rule_for_node evaluate_conditions status_in has_taint_by_spec
    remove_taint_by_spec
evaluate_records_example = evaluate_records sample network_rule ready_node cluster refl

evaluate_as_counted_example :
    let after =
      taint_view sample network_taint "worker-1"
        (evaluate_rule_for_node sample network_rule ready_node cluster).3 in
    (((count_node network_rule ready_node zero_counts).to_remove ≡ 1)
      ↔ ((some true ≡ some true) × (after ≡ some false)))
    × (((count_node network_rule ready_node zero_counts).to_add ≡ 1)
        ↔ ((some true ≡ some false) × (after ≡ some true)))
unfolding rule_applies_to evaluate_rule_for_node evaluate_conditions status_in has_taint_by_spec
    remove_taint_by_spec
evaluate_as_counted_example =
    evaluate_as_counted sample sample_laws network_rule ready_node cluster refl (omega arith) refl
      refl

process_dry_run_lem_example :
    (text : String) × (process_dry_run sample network_rule cluster ≡ (
      ok (record network_rule {
        status = record (network_rule.status) {
          dry_run_results = record {
            affected_nodes = some 2;
            taints_to_add = some 1;
            taints_to_remove = some 1;
            risky_operations = some 0;
            summary = text;
          };
        };
      }),
      cluster,
    ))
unfolding rule_applies_to meets_all status_in has_taint_by_spec
process_dry_run_lem_example =
    process_dry_run_lem sample network_rule listed cluster cluster refl (omega arith) (omega arith)

abbrev rule_or : NodeReadinessRule → Result NodeReadinessRule → NodeReadinessRule
rule_or rule (ok out) = out
rule_or rule (err e) = rule

-- The rule after a pass over the two nodes.
abbrev passed : NodeReadinessRule
passed = rule_or network_rule (process_all_nodes_for_rule sample network_rule cluster).0

process_all_nodes_accounts_example : IsAccounted "worker-2" passed
unfolding rule_applies_to process_all_nodes_for_rule
process_all_nodes_accounts_example =
    process_all_nodes_accounts sample sample_patch network_rule passed listed unready_node cluster
      cluster refl (in_tail (at_head refl)) refl refl

process_all_nodes_lem_example :
    (rule' : NodeReadinessRule) × ((process_all_nodes_for_rule sample network_rule cluster).0
      ≡ ok rule')
    × (rule'.status.applied_nodes ≡ "worker-1" ∷ "worker-2" ∷ [])
    × (rule'.status.observed_generation ≡ 3)
    × (rule'.spec ≡ network_spec)
    × (rule'.name ≡ "network")
unfolding rule_applies_to
process_all_nodes_lem_example =
    process_all_nodes_lem sample network_rule listed cluster cluster refl

process_all_nodes-HasDistinctStatus_example : HasDistinctStatus sample passed
unfolding process_all_nodes_for_rule
process_all_nodes-HasDistinctStatus_example =
    process_all_nodes-HasDistinctStatus sample network_rule passed cluster (tt, tt) refl

process_all_nodes_refines_example :
    taint_view sample network_taint "worker-2"
      (process_all_nodes_for_rule sample network_rule cluster).1
    ≡ settled sample network_rule listed "worker-2"
        (taint_view sample network_taint "worker-2" cluster)
unfolding process_all_nodes_for_rule process_nodes rule_applies_to evaluate_rule_for_node
    evaluate_conditions status_in has_taint_by_spec remove_taint_by_spec
    update_node_evaluation_status add_taint_by_spec
process_all_nodes_refines_example =
    process_all_nodes_refines sample sample_laws network_rule passed listed "worker-2" cluster
      cluster (process_all_nodes_for_rule sample network_rule cluster).1 refl refl refl

evaluate_converges_example :
    let node' = (evaluate_rule_for_node sample network_rule ready_node cluster).1 in
    let again = evaluate_rule_for_node sample network_rule node' cluster in
    (again.1 ≡ node') × (again.2 ≡ none) × (again.3 ≡ cluster)
unfolding evaluate_rule_for_node evaluate_conditions status_in has_taint_by_spec
    remove_taint_by_spec
evaluate_converges_example =
    evaluate_converges sample sample_conditions network_rule ready_node cluster refl sample_patch
      network_rule cluster refl refl

-- The rule with what the dry run finds.
abbrev simulated_rule : NodeReadinessRule
simulated_rule =
    with_dry_run_results network_rule
      (results_of (record { affected = 2; to_add = 1; to_remove = 1; risky = 0 }))

process_dry_run_summary_example :
    (simulated_rule.status.dry_run_results.summary ≡ "No changes needed") ↔ (
      All (λ node. would_add sample network_rule node ≡ false) listed
      × All (λ node. would_remove sample network_rule node ≡ false) listed
      × All (λ node. is_risky sample network_rule node ≡ false) listed)
unfolding process_dry_run count_nodes rule_applies_to count_node simulate_conditions status_in
    has_taint_by_spec
process_dry_run_summary_example =
    process_dry_run_summary sample network_rule listed cluster cluster cluster simulated_rule refl
      (omega arith) (omega arith) refl

process_dry_run_bounds_example :
    (affected to_add to_remove risky : ℕ) × (simulated_rule.status.dry_run_results.affected_nodes
      ≡ some affected)
    × (simulated_rule.status.dry_run_results.taints_to_add ≡ some to_add)
    × (simulated_rule.status.dry_run_results.taints_to_remove ≡ some to_remove)
    × (simulated_rule.status.dry_run_results.risky_operations ≡ some risky)
    × (to_add + to_remove ≤ affected)
    × (risky ≤ affected)
    × (affected ≤ 2)
unfolding process_dry_run count_nodes rule_applies_to count_node simulate_conditions status_in
    has_taint_by_spec
process_dry_run_bounds_example =
    process_dry_run_bounds sample network_rule listed cluster cluster cluster simulated_rule refl
      (omega arith) (omega arith) refl
