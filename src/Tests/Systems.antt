-- ===== src/Tests/Systems.antt =====
-- The theorems on sequences of events, at the sample cluster.
use node_readiness_controlle.Prelude.{Bool-cases, [], inl, inr, refl, subst, ◌∷◌, ◌≡◌}
use node_readiness_controlle.NodeController.Bootstrap.{annotation_key}
use node_readiness_controlle.RuleController.Cache.{
  get_applicable_rules_for_node, new_readiness_gate_controller, rule_applies_to, update_rule_cache,
}
use node_readiness_controlle.RuleController.Cache.Laws.{IsValid}
use node_readiness_controlle.RuleController.Reconcile.{State, reconcile}
use node_readiness_controlle.System.{Runs, after_node, here, initial, later, node_event, rule_event}
use node_readiness_controlle.System.Completion.{IsCompleted, Runs-IsCompleted}
use node_readiness_controlle.System.Invariants.{reachable-IsValid}
use node_readiness_controlle.System.Trace.{Trace}
use node_readiness_controlle.System.Writes.{
  ManagesTaints, reconcile_node-Trace, reconcile_rule-Trace,
}
use node_readiness_controlle.Tests.Sample.{Cluster, cluster, first_node, network_rule, sample}
use node_readiness_controlle.Tests.SampleLaws.{
  sample_annotations, sample_calls, sample_retry, sample_writes,
}
use node_readiness_controlle.Tests.SampleTraces.{IsNetworkTaint, served_network}

-- The first node has been marked as completed.
abbrev marked_cluster : Cluster
marked_cluster = record cluster {
  first = record { taints = []; annotations = (annotation_key "network", "true") ∷ [] };
}

abbrev marked_start : State Cluster
marked_start = initial sample marked_cluster

-- Nobody else writes.
abbrev Quiet : Cluster → Cluster → Type 0
Quiet v w = v ≡ w

abbrev after_rule : State Cluster
after_rule = (reconcile sample "network" marked_start).1

rule_then_node : Runs sample Quiet marked_start (after_node sample "worker-1" after_rule)
rule_then_node = later (later here (rule_event "network")) (node_event "worker-1")

-- A state whose cache has the rule of the cluster.
abbrev cached_start : State Cluster
cached_start = record {
  controller = update_rule_cache network_rule new_readiness_gate_controller;
  world = cluster;
}

one_cached : ManagesTaints sample IsNetworkTaint cached_start.controller
unfolding get_applicable_rules_for_node update_rule_cache
one_cached node w = elim (Bool-cases (rule_applies_to sample network_rule node)) [
  | inl a ↦ rw a (refl, tt)
  | inr a ↦ rw a tt
]

reconcile_rule-Trace_example :
    Trace sample IsNetworkTaint cluster
      (reconcile sample "network" (initial sample cluster)).1.world
reconcile_rule-Trace_example =
    reconcile_rule-Trace sample IsNetworkTaint sample_retry "network" (initial sample cluster)
      (served_network refl)

reconcile_node-Trace_example :
    Trace sample IsNetworkTaint cluster (after_node sample "worker-1" cached_start).world
reconcile_node-Trace_example =
    reconcile_node-Trace sample IsNetworkTaint sample_retry "worker-1" cached_start one_cached

Runs-IsCompleted_example :
    IsCompleted sample "worker-1" "network" (after_node sample "worker-1" after_rule).world
unfolding annotation_key
Runs-IsCompleted_example =
    Runs-IsCompleted sample "worker-1" "network" sample_writes sample_calls sample_annotations
      sample_retry Quiet (λ v w o done. subst (IsCompleted sample "worker-1" "network") o done)
      rule_then_node (first_node marked_cluster.first, refl, refl)

reachable-IsValid_example : IsValid (after_node sample "worker-1" after_rule).controller
reachable-IsValid_example = reachable-IsValid sample Quiet marked_cluster rule_then_node
