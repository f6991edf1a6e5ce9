-- ===== src/RuleController/Persist.antt =====
-- updateRuleStatus: the status of a rule, written over the status of its latest version.
pub mod Laws
use node_readiness_controlle.Api.{NodeReadinessRule}
use node_readiness_controlle.Platform.{Result, ok, err, Client}
use node_readiness_controlle.NodeController.Bootstrap.{to_unit}

-- The latest version with the five status fields of ours.
unfoldable pub merge_status : NodeReadinessRule → NodeReadinessRule → NodeReadinessRule
merge_status rule latest =
    let status = record (latest.status) {
      node_evaluations = rule.status.node_evaluations;
      applied_nodes = rule.status.applied_nodes;
      failed_nodes = rule.status.failed_nodes;
      observed_generation = rule.status.observed_generation;
      dry_run_results = rule.status.dry_run_results;
    } in
    record latest { status = status }

module _ {W S : Type 0} (c : Client W S) where
  abbrev pub merge_latest : NodeReadinessRule → Result NodeReadinessRule × W → Result (Unit {0}) × W
  merge_latest rule (err e, w) = (err e, w)
  merge_latest rule (ok latest, w) = to_unit (c.update_rule_status (merge_status rule latest) w)

  -- The function that updateRuleStatus retries.
  unfoldable pub status_attempt : NodeReadinessRule → W → Result (Unit {0}) × W
  status_attempt rule w = merge_latest rule (c.get_rule rule.name w)

  unfoldable pub update_rule_status : NodeReadinessRule → W → Result (Unit {0}) × W
  update_rule_status rule w = c.retry_on_conflict (status_attempt rule) w
