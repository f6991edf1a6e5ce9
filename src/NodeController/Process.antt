-- ===== src/NodeController/Process.antt =====
-- processNodeAgainstAllRules and NodeReconciler.Reconcile: a node against the cached rules. The
-- rules are those of the cache itself, so that what the evaluation writes stays in the cache.
pub mod Skips
pub mod Persisted
use node_readiness_controlle.Prelude.{
  String, Bool, ◌&&◌, ◌||◌, List, [], ◌∷◌, ◌++◌, Option, none, some, ◌==◌, any_of, keep_if,
  if◌then◌else◌,
}
use node_readiness_controlle.Api.{Node, NodeEvaluation, NodeReadinessRule, bootstrap_only}
use node_readiness_controlle.Platform.{Error, Result, ok, err, Client}
use node_readiness_controlle.NodeController.Bootstrap.{is_bootstrap_completed, to_unit}
use node_readiness_controlle.RuleController.Status.{other_failures}
use node_readiness_controlle.RuleController.Cache.{
  Controller, update_rule_cache, get_applicable_rules_for_node,
}
use node_readiness_controlle.RuleController.Evaluate.{Evaluated, evaluate_rule_for_node}
use node_readiness_controlle.RuleController.Process.{note_failure}

-- `NodeEvaluation{}`
abbrev pub empty_evaluation : NodeEvaluation
empty_evaluation = record {
  node_name = "";
  condition_results = [];
  taint_status = none;
  last_evaluation_time = 0;
}

-- The loop that finds currEval.
unfoldable pub current_evaluation : String → List NodeEvaluation → NodeEvaluation
current_evaluation node_name [] = empty_evaluation
current_evaluation node_name (e ∷ rest) =
    if e.node_name == node_name then e else current_evaluation node_name rest

-- The loop that overwrites the first evaluation of the node.
unfoldable pub overwrite_evaluation :
    String → NodeEvaluation → List NodeEvaluation → List NodeEvaluation
overwrite_evaluation node_name curr [] = []
overwrite_evaluation node_name curr (e ∷ rest) =
    if e.node_name == node_name then curr ∷ rest else e ∷ overwrite_evaluation node_name curr rest

-- The flag `found` of that loop.
unfoldable pub has_evaluation : String → List NodeEvaluation → Bool
has_evaluation node_name = any_of (λ e. e.node_name == node_name)

-- The latest version with this node's evaluation and failures from ours.
unfoldable pub merge_node : String → NodeReadinessRule → NodeReadinessRule → NodeReadinessRule
merge_node node_name rule latest =
    let status = record (latest.status) {
      node_evaluations =
          overwrite_evaluation node_name (current_evaluation node_name rule.status.node_evaluations)
            latest.status.node_evaluations;
      failed_nodes =
          other_failures node_name latest.status.failed_nodes
          ++ keep_if (λ f. f.node_name == node_name) rule.status.failed_nodes;
    } in
    record latest { status = status }

-- The node as the rules see it in turn, the controller and the world.
pub record Run (W : Type 0) : Type 0 where
  pub node : Node
  pub controller : Controller
  pub world : W

module _ {W S : Type 0} (c : Client W S) where
  -- Where the latest version has no evaluation of the node, one is appended to it, and the
  -- function returns without writing it.
  abbrev pub persist_latest :
      String → NodeReadinessRule → Result NodeReadinessRule × W → Result (Unit {0}) × W
  persist_latest node_name rule (err e, w) = (err e, w)
  persist_latest node_name rule (ok latest, w) =
      if has_evaluation node_name latest.status.node_evaluations
      then to_unit (c.update_rule_status (merge_node node_name rule latest) w)
      else (ok tt, w)

  -- The function that is retried to persist the status.
  unfoldable pub persist_attempt : String → NodeReadinessRule → W → Result (Unit {0}) × W
  persist_attempt node_name rule w = persist_latest node_name rule (c.get_rule rule.name w)

  -- The rest of a round, behind the two tests that skip a rule: an error of the retry is logged.
  abbrev pub persist_evaluated : Controller → Evaluated c → Run W
  persist_evaluated r evaluated =
      let rule = note_failure c evaluated in
      record {
        node = evaluated.1;
        controller = update_rule_cache rule r;
        world = (c.retry_on_conflict (persist_attempt evaluated.1.name rule) evaluated.3).1;
      }

  -- A round behind the reading of the annotation.
  abbrev pub process_unless_skipped : NodeReadinessRule → Node → Controller → Bool × W → Run W
  process_unless_skipped rule node r (completed, w) =
      if completed && rule.spec.enforcement_mode == bootstrap_only
      then record { node = node; controller = r; world = w }
      else if rule.spec.dry_run || r.global_dry_run
      then record { node = node; controller = r; world = w }
      else persist_evaluated r (evaluate_rule_for_node c rule node w)

  -- One round of the loop over the applicable rules.
  unfoldable pub process_rule : NodeReadinessRule → Run W → Run W
  process_rule rule run =
      process_unless_skipped rule run.node run.controller
        (is_bootstrap_completed c run.node.name rule.name run.world)

  unfoldable pub process_rules : List NodeReadinessRule → Run W → Run W
  process_rules [] run = run
  process_rules (rule ∷ rest) run = process_rules rest (process_rule rule run)

  unfoldable pub process_node_against_all_rules : Run W → Run W
  process_node_against_all_rules run =
      process_rules (get_applicable_rules_for_node c run.node run.controller run.world) run

  abbrev pub reconcile_fetched : Controller → Result Node × W → Option Error × Controller × W
  reconcile_fetched r (err e, w) = (if c.is_not_found e then none else some e, r, w)
  reconcile_fetched r (ok node, w) =
      let run =
        process_node_against_all_rules (record { node = node; controller = r; world = w }) in
      (none, run.controller, run.world)

  unfoldable pub reconcile : String → Controller → W → Option Error × Controller × W
  reconcile name r w = reconcile_fetched r (c.get_node name w)
