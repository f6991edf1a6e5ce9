-- ===== src/Tests/Rules.antt =====
-- The theorems on the passes over a rule, its cache and its status, at the sample cluster.
use node_readiness_controlle.Prelude.{
  String, StringMap, [], at_head, refl, some, true, ◌∷◌, ◌≡◌, ◌⊎◌,
}
use node_readiness_controlle.Api.{NodeReadinessRule, Taint, absent, with_evaluations}
use node_readiness_controlle.Platform.{Client, Result, err, ok}
use node_readiness_controlle.NodeController.Bootstrap.{
  annotation_key, mark_attempt, mark_bootstrap_completed,
}
use node_readiness_controlle.NodeController.Conditions.{status_in}
use node_readiness_controlle.NodeController.Taints.{
  add_taint_by_spec, has_taint_by_spec, remove_taint_by_spec,
}
use node_readiness_controlle.NodeController.Taints.Stored.{others_view, taint_view}
use node_readiness_controlle.Platform.Laws.{NodeCallLaw, PatchLaw, TaintStoreLaw}
use node_readiness_controlle.RuleController.Cache.{
  get_cached_rule, new_readiness_gate_controller, rule_applies_to, set_global_dry_run,
  update_rule_cache,
}
use node_readiness_controlle.RuleController.Cleanup.{
  cleanup_deleted_nodes, cleanup_nodes_after_selector_change, cleanup_taints_for_rule,
  prune_attempt, remove_taints,
}
use node_readiness_controlle.RuleController.Cleanup.Laws.{IsClean}
use node_readiness_controlle.RuleController.Cleanup.Pruning.{IsPruned, prune_attempt_prunes}
use node_readiness_controlle.RuleController.Cleanup.Safety.{cleanup_change_cleans}
use node_readiness_controlle.RuleController.Cleanup.Spares.{cleanup_change_spares}
use node_readiness_controlle.RuleController.Evaluate.{evaluate_conditions, evaluate_rule_for_node}
use node_readiness_controlle.RuleController.Finalizer.{contains_finalizer}
use node_readiness_controlle.RuleController.Persist.{
  merge_status, status_attempt, update_rule_status,
}
use node_readiness_controlle.RuleController.Persist.Laws.{IsSaved, update_rule_status_saves}
use node_readiness_controlle.RuleController.Process.{process_all_nodes_for_rule, process_nodes}
use node_readiness_controlle.RuleController.Process.Refinement.{settled}
use node_readiness_controlle.RuleController.Reconcile.{
  State, ensure_finalizer, evaluate_nodes, fetch_rule, handle_selector_change, reconcile,
  reconcile_deleted, reconcile_live,
}
use node_readiness_controlle.RuleController.Reconcile.Deletion.{
  reconcile_deleted_cleans, reconcile_deleted_keeps,
}
use node_readiness_controlle.RuleController.Reconcile.Live.{
  SelectorKept, cleared, reconcile_live_foreign, reconcile_live_refines,
}
use node_readiness_controlle.RuleController.Reconcile.Modes.{reconcile_ignores_global_dry_run}
use node_readiness_controlle.RuleController.Status.{
  record_node_failure, update_node_evaluation_status, upsert_evaluation,
}
use node_readiness_controlle.RuleController.Status.Laws.{evaluation_of}
use node_readiness_controlle.Tests.Sample.{
  Cluster, NodeState, cluster, first_node, get_rule, listed, network_rule, network_spec,
  network_taint, not_found, ready_node, sample, unready_node,
}
use node_readiness_controlle.Tests.SampleLaws.{
  sample_calls, sample_laws, sample_patch, sample_retry, sample_rules, sample_taints,
}

abbrev deleted_rule : NodeReadinessRule
deleted_rule = record network_rule { deletion_timestamp = some 9 }

-- The rule after its nodes are chosen by another role.
abbrev moved_rule : NodeReadinessRule
moved_rule = record network_rule {
  spec = record network_spec {
    node_selector = record { match_labels = ("role", "control") ∷ []; match_expressions = [] };
  };
}

-- A rule with an evaluation of a node that is gone.
abbrev stale_rule : NodeReadinessRule
stale_rule = with_evaluations network_rule (evaluation_of "worker-9" [] absent 3 ∷ [])

abbrev stale_cluster : Cluster
stale_cluster = record cluster { rule = stale_rule }

abbrev start : State Cluster
start = record { controller = new_readiness_gate_controller; world = cluster }

reconcile_deleted_cleans_example :
    IsClean sample sample_patch sample_taints network_taint
      (reconcile_deleted sample deleted_rule start).1.world
      "worker-1"
unfolding contains_finalizer rule_applies_to reconcile_deleted cleanup_taints_for_rule remove_taints
    has_taint_by_spec remove_taint_by_spec
reconcile_deleted_cleans_example =
    reconcile_deleted_cleans sample deleted_rule start refl sample_patch sample_taints listed
      ready_node cluster refl (at_head refl) refl refl

-- A client that refuses every patch.
abbrev stubborn : Client Cluster (StringMap String)
stubborn = record sample { patch_node = λ base node w. (err not_found, w) }

stubborn_patch : PatchLaw stubborn
stubborn_patch base node fresh w w' e changes = cc

stubborn_taints : TaintStoreLaw stubborn
stubborn_taints = record {
  patch_node_stores = λ base node fresh w w' e changes. cc;
  patch_node_others = λ base node n w apart. refl;
  list_nodes_current = sample_taints.list_nodes_current;
  update_rule_others = sample_taints.update_rule_others;
}

stubborn_calls : NodeCallLaw stubborn
stubborn_calls = record { list_nodes_rules = λ m w. refl; patch_node_rules = λ base node m w. refl }

reconcile_deleted_keeps_example :
    IsClean stubborn stubborn_patch stubborn_taints network_taint
      (reconcile_deleted stubborn deleted_rule start).1.world
      "worker-1"
    ⊎ ((get_rule "network" (reconcile_deleted stubborn deleted_rule start).1.world).0
        ≡ ok network_rule)
unfolding contains_finalizer rule_applies_to
reconcile_deleted_keeps_example =
    reconcile_deleted_keeps stubborn deleted_rule start refl stubborn_patch stubborn_taints
      stubborn_calls listed ready_node cluster refl (at_head refl) refl

reconcile_ignores_global_dry_run_example :
    reconcile sample "network" (record {
      controller = set_global_dry_run true new_readiness_gate_controller;
      world = cluster;
    })
    ≡ (
      (reconcile sample "network" start).0,
      record {
        controller = set_global_dry_run true (reconcile sample "network" start).1.controller;
        world = (reconcile sample "network" start).1.world;
      },
    )
reconcile_ignores_global_dry_run_example =
    reconcile_ignores_global_dry_run sample true "network" start

cleanup_change_cleans_example :
    IsClean sample sample_patch sample_taints network_taint
      (cleanup_nodes_after_selector_change sample network_rule moved_rule cluster).1
      "worker-1"
unfolding rule_applies_to cleanup_nodes_after_selector_change remove_taints has_taint_by_spec
    remove_taint_by_spec
cleanup_change_cleans_example =
    cleanup_change_cleans sample sample_patch sample_taints network_rule moved_rule
      (("role", "worker") ∷ []) listed ready_node cluster cluster refl refl (at_head refl) refl refl
      refl

cleanup_change_spares_example :
    (sample.get_node "worker-1"
      (cleanup_nodes_after_selector_change sample moved_rule network_rule cluster).1).0
    ≡ ok ready_node
unfolding rule_applies_to
cleanup_change_spares_example =
    cleanup_change_spares sample sample_patch sample_taints "worker-1" moved_rule network_rule
      listed cluster cluster refl (λ h. refl, (λ h. refl, tt))

prune_attempt_prunes_example :
    IsPruned sample sample_rules listed "network"
      (prune_attempt sample listed "network" stale_cluster).1
unfolding prune_attempt
prune_attempt_prunes_example =
    prune_attempt_prunes sample sample_rules listed "network" sample_retry stale_cluster refl

update_rule_status_saves_example :
    IsSaved sample sample_rules stale_rule (update_rule_status sample stale_rule cluster).1
unfolding update_rule_status status_attempt merge_status
update_rule_status_saves_example =
    update_rule_status_saves sample sample_rules stale_rule sample_retry cluster refl

abbrev rule_or : NodeReadinessRule → Result NodeReadinessRule → NodeReadinessRule
rule_or rule (ok out) = out
rule_or rule (err e) = rule

-- The rule behind the pass over the nodes.
abbrev passed_rule : NodeReadinessRule
passed_rule =
    rule_or network_rule (process_all_nodes_for_rule sample (cleared network_rule) cluster).0

no_cached : SelectorKept network_rule new_readiness_gate_controller
unfolding get_cached_rule
no_cached version e = absurd (cc e)

reconcile_live_refines_example :
    taint_view sample network_taint "worker-1" (reconcile sample "network" start).1.world
    ≡ settled sample network_rule listed "worker-1"
        (taint_view sample network_taint "worker-1" cluster)
unfolding contains_finalizer process_all_nodes_for_rule process_nodes rule_applies_to
    evaluate_rule_for_node evaluate_conditions status_in has_taint_by_spec remove_taint_by_spec
    update_node_evaluation_status add_taint_by_spec reconcile fetch_rule reconcile_live
    ensure_finalizer handle_selector_change get_cached_rule mark_bootstrap_completed mark_attempt
    annotation_key update_rule_cache cleanup_deleted_nodes prune_attempt merge_status status_attempt
    update_rule_status evaluate_nodes upsert_evaluation record_node_failure
reconcile_live_refines_example =
    reconcile_live_refines sample "network" start network_rule cluster sample_laws sample_calls
      passed_rule listed "worker-1" cluster refl refl refl no_cached refl refl refl refl refl

-- A taint that is not the rule's, with a value, on the first node.
abbrev storage_taint : Taint
storage_taint = record { key = "storage"; value = "slow"; effect = "NoSchedule" }

abbrev stored_first : NodeState
stored_first = record { taints = storage_taint ∷ network_taint ∷ []; annotations = [] }

abbrev foreign_start : State Cluster
foreign_start = record {
  controller = new_readiness_gate_controller;
  world = record cluster { first = stored_first };
}

abbrev foreign_rule : NodeReadinessRule
foreign_rule =
    rule_or network_rule
      (process_all_nodes_for_rule sample (cleared network_rule) foreign_start.world).0

reconcile_live_foreign_example :
    others_view sample network_taint "worker-1" (reconcile sample "network" foreign_start).1.world
    ≡ some (storage_taint ∷ [])
unfolding contains_finalizer process_all_nodes_for_rule process_nodes rule_applies_to
    evaluate_rule_for_node evaluate_conditions status_in has_taint_by_spec remove_taint_by_spec
    update_node_evaluation_status add_taint_by_spec reconcile fetch_rule reconcile_live
    ensure_finalizer handle_selector_change get_cached_rule mark_bootstrap_completed mark_attempt
    annotation_key update_rule_cache cleanup_deleted_nodes prune_attempt merge_status status_attempt
    update_rule_status evaluate_nodes upsert_evaluation record_node_failure
reconcile_live_foreign_example =
    reconcile_live_foreign sample "network" foreign_start network_rule foreign_start.world
      sample_laws sample_calls foreign_rule (first_node stored_first ∷ unready_node ∷ []) "worker-1"
      foreign_start.world refl refl refl no_cached refl refl refl refl refl
