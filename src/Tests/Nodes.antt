-- ===== src/Tests/Nodes.antt =====
-- The theorems on the changes of nodes, at the sample cluster.
use node_readiness_controlle.Prelude.{
  Bool, IsIn, String, [], arith, eq_iff, false, lookup, none, refl, some, true, ◌↔◌, ◌∷◌, ◌≡◌,
}
use node_readiness_controlle.Api.{Node, NodeReadinessRule, absent, present, with_evaluations}
use node_readiness_controlle.NodeController.Bootstrap.{
  is_bootstrap_completed, mark_attempt, mark_bootstrap_completed,
}
use node_readiness_controlle.NodeController.Bootstrap.Laws.{mark_bootstrap_completed_marks}
use node_readiness_controlle.NodeController.Conditions.{get_condition_status}
use node_readiness_controlle.NodeController.Events.{
  condition_map, conditions_equal, conditions_match, labels_equal, should_reconcile, taints_equal,
  taints_match,
}
use node_readiness_controlle.NodeController.Events.Laws.{dropped_update}
use node_readiness_controlle.NodeController.Process.{
  Run, has_evaluation, merge_node, persist_attempt, process_node_against_all_rules,
}
use node_readiness_controlle.NodeController.Process.Persisted.{
  IsPersisted, merge_node_lem, persist_attempt-IsPersisted,
}
use node_readiness_controlle.NodeController.Process.Skips.{process_node_global_dry_run}
use node_readiness_controlle.RuleController.Cache.{
  get_applicable_rules_for_node, get_cached_rule, new_readiness_gate_controller, rule_applies_to,
  set_global_dry_run, update_rule_cache,
}
use node_readiness_controlle.RuleController.Cache.Applicable.{get_applicable_rules_iff}
use node_readiness_controlle.RuleController.Selector.{values_match}
use node_readiness_controlle.RuleController.Status.Laws.{
  evaluation_of, find_evaluation, find_failure,
}
use node_readiness_controlle.Tests.Sample.{
  Cluster, cluster, network_rule, ready_node, sample, unready_node,
}
use node_readiness_controlle.Tests.SampleLaws.{
  sample_nodes, sample_range, sample_reads, sample_retry, sample_rules,
}

-- The run of a change of the first node, with the switch as given.
abbrev run_with : Bool → Run Cluster
run_with b = record {
  node = ready_node;
  controller = set_global_dry_run b (update_rule_cache network_rule new_readiness_gate_controller);
  world = cluster;
}

mark_bootstrap_completed_marks_example :
    (is_bootstrap_completed sample "worker-1" "network"
      (mark_bootstrap_completed sample "worker-1" "network" cluster)).0
    ≡ true
unfolding mark_attempt
mark_bootstrap_completed_marks_example =
    mark_bootstrap_completed_marks sample sample_nodes "worker-1" "network" sample_retry cluster
      refl

process_node_global_dry_run_example :
    process_node_against_all_rules sample (run_with true) ≡ run_with true
unfolding set_global_dry_run
process_node_global_dry_run_example =
    process_node_global_dry_run sample sample_reads (run_with true) refl

get_applicable_rules_iff_example :
    IsIn network_rule
      (get_applicable_rules_for_node sample ready_node (run_with false).controller cluster)
    ↔ ((get_cached_rule "network" (run_with false).controller ≡ some network_rule)
        × (rule_applies_to sample network_rule ready_node ≡ true))
unfolding set_global_dry_run update_rule_cache
get_applicable_rules_iff_example =
    get_applicable_rules_iff sample sample_range network_rule ready_node (run_with false).controller
      cluster (record { is_map = (refl, tt); is_named = (refl, tt) })

-- Ours says that the node has no taint, the server's that it had one.
abbrev our_rule : NodeReadinessRule
our_rule = with_evaluations network_rule (evaluation_of "worker-1" [] absent 9 ∷ [])

abbrev stored_rule : NodeReadinessRule
stored_rule =
    with_evaluations network_rule
      (evaluation_of "worker-1" [] present 3 ∷ evaluation_of "worker-2" [] present 4 ∷ [])

merge_node_lem_example :
    (find_evaluation "worker-2" (merge_node "worker-1" our_rule stored_rule).status.node_evaluations
      ≡ some (evaluation_of "worker-2" [] present 4))
    × (find_failure "worker-2" (merge_node "worker-1" our_rule stored_rule).status.failed_nodes
        ≡ none)
unfolding has_evaluation
merge_node_lem_example =
    merge_node_lem "worker-1" "worker-2" our_rule stored_rule (evaluation_of "worker-1" [] absent 9)
      refl refl

persist_attempt-IsPersisted_example :
    IsPersisted sample sample_rules "worker-1" our_rule
      (evaluation_of "worker-1" [] absent 9)
      refl
      (persist_attempt sample "worker-1" our_rule (record cluster { rule = stored_rule })).1
unfolding persist_attempt has_evaluation merge_node
persist_attempt-IsPersisted_example =
    persist_attempt-IsPersisted sample sample_rules "worker-1" our_rule
      (evaluation_of "worker-1" [] absent 9) refl sample_retry
      (record cluster { rule = stored_rule }) refl

-- The second node after only its annotations changed.
abbrev waiting_node : Node
waiting_node = record unready_node { annotations = ("note", "seen") ∷ [] }

dropped_update_example :
    ((t : String) → get_condition_status waiting_node t ≡ get_condition_status unready_node t)
    × ((k : String) → lookup k waiting_node.labels ≡ lookup k unready_node.labels)
unfolding should_reconcile conditions_equal conditions_match condition_map taints_equal taints_match
    labels_equal values_match
dropped_update_example =
    dropped_update unready_node waiting_node (refl, (refl, tt)) (refl, (refl, tt)) (refl, tt)
      (refl, tt) ((λ e. ground (arith, eq_iff "worker" "")), tt) refl
