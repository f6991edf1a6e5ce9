-- ===== src/Tests/Sample.antt =====
-- A client of an API server with two nodes and one rule, which nobody else writes to.
use node_readiness_controlle.Prelude.{
  String, Bool, true, false, ◌&&◌, List, [], ◌∷◌, none, some, ◌==◌, StringMap, lookup,
  if◌then◌else◌,
}
use node_readiness_controlle.Api.{
  Taint, NodeCondition, Node, NodeReadinessRule, NodeReadinessRuleSpec, NodeReadinessRuleStatus,
  no_dry_run_results, bootstrap_only,
}
use node_readiness_controlle.Platform.{Error, api, Result, ok, err, Client}

pub record NodeState : Type 0 where
  pub taints : List Taint
  pub annotations : StringMap String

pub record Cluster : Type 0 where
  pub first : NodeState
  pub second : NodeState
  pub rule : NodeReadinessRule

abbrev pub first_conditions : List NodeCondition
first_conditions =
    record { cond_type = "Ready"; status = "True" }
    ∷ record { cond_type = "NetworkReady"; status = "True" }
    ∷ []

abbrev pub second_conditions : List NodeCondition
second_conditions =
    record { cond_type = "Ready"; status = "True" }
    ∷ record { cond_type = "NetworkReady"; status = "False" }
    ∷ []

abbrev pub first_node : NodeState → Node
first_node s = record {
  name = "worker-1";
  labels = ("role", "worker") ∷ [];
  annotations = s.annotations;
  taints = s.taints;
  conditions = first_conditions;
}

abbrev pub second_node : NodeState → Node
second_node s = record {
  name = "worker-2";
  labels = ("role", "worker") ∷ [];
  annotations = s.annotations;
  taints = s.taints;
  conditions = second_conditions;
}

abbrev pub not_found : Error
not_found = api "NotFound" "not found"

abbrev pub node_state : Node → NodeState
node_state node = record { taints = node.taints; annotations = node.annotations }

abbrev pub get_node : String → Cluster → Result Node × Cluster
get_node n w = (
  if n == "worker-1"
      then ok (first_node w.first)
      else if n == "worker-2"
      then ok (second_node w.second)
      else err not_found,
  w,
)

abbrev pub put_node : Node → Cluster → Result Node × Cluster
put_node node w =
    if node.name == "worker-1"
    then (ok (first_node (node_state node)), record w { first = node_state node })
    else if node.name == "worker-2"
    then (ok (second_node (node_state node)), record w { second = node_state node })
    else (err not_found, w)

-- A patch of the taints.
abbrev pub put_taints : Node → Cluster → Result Node × Cluster
put_taints node w =
    if node.name == "worker-1"
    then (
      ok (first_node (record (w.first) { taints = node.taints })),
      record w { first = record (w.first) { taints = node.taints } },
    )
    else if node.name == "worker-2"
    then (
      ok (second_node (record (w.second) { taints = node.taints })),
      record w { second = record (w.second) { taints = node.taints } },
    )
    else (err not_found, w)

abbrev pub get_rule : String → Cluster → Result NodeReadinessRule × Cluster
get_rule n w = (if w.rule.name == n then ok w.rule else err not_found, w)

abbrev pub put_status : NodeReadinessRule → Cluster → Result NodeReadinessRule × Cluster
put_status r w =
    let stored = record (w.rule) { status = r.status } in
    if w.rule.name == r.name then (ok stored, record w { rule = stored }) else (err not_found, w)

abbrev pub reason_is : String → Error → Bool
reason_is r (api reason message) = reason == r
reason_is r e = false

-- Whether a map has every entry of another one.
abbrev pub has_labels : StringMap String → StringMap String → Bool
has_labels [] labels = true
has_labels ((k, v) ∷ wanted) labels =
    (elim (lookup k labels) [ none ↦ false | some u ↦ u == v ]) && has_labels wanted labels

abbrev pub first_key : StringMap String → String
first_key [] = ""
first_key ((k, v) ∷ m) = k

-- It never answers with a conflict, so that one call is enough, and its selectors are label maps.
abbrev pub sample : Client Cluster (StringMap String)
sample = record {
  get_rule = get_rule;
  list_rules = λ w. (ok (w.rule ∷ []), w);
  update_rule = λ r w. (ok r, record w { rule = r });
  update_rule_status = put_status;
  get_node = get_node;
  list_nodes = λ w. (ok (first_node w.first ∷ second_node w.second ∷ []), w);
  update_node = put_node;
  patch_node = λ base node w. put_taints node w;
  is_not_found = reason_is "NotFound";
  is_conflict = reason_is "Conflict";
  retry_on_conflict = λ fn w. fn w;
  now = λ w. 7;
  as_selector = λ s. ok s.match_labels;
  matches = has_labels;
  is_empty = λ s. elim s [ [] ↦ true | ◌∷◌ x r ↦ false ];
  selector_string = first_key;
  range_order = λ w m. m;
}

abbrev pub network_taint : Taint
network_taint = record { key = "readiness/network"; value = "pending"; effect = "NoSchedule" }

-- A rule that wants the network, for the nodes with the role of a worker.
abbrev pub network_spec : NodeReadinessRuleSpec
network_spec = record {
  conditions = record { cond_type = "NetworkReady"; required_status = "True" } ∷ [];
  enforcement_mode = bootstrap_only;
  taint = network_taint;
  node_selector = record { match_labels = ("role", "worker") ∷ []; match_expressions = [] };
  dry_run = false;
}

abbrev pub empty_status : NodeReadinessRuleStatus
empty_status = record {
  observed_generation = 0;
  applied_nodes = [];
  failed_nodes = [];
  node_evaluations = [];
  dry_run_results = no_dry_run_results;
}

abbrev pub network_rule : NodeReadinessRule
network_rule = record {
  name = "network";
  generation = 3;
  resource_version = "41";
  deletion_timestamp = none;
  finalizers = "readiness.node.x-k8s.io/cleanup-taints" ∷ [];
  spec = network_spec;
  status = empty_status;
}

-- The first node is ready and still has the taint; the second is not ready and has none.
abbrev pub cluster : Cluster
cluster = record {
  first = record { taints = network_taint ∷ []; annotations = [] };
  second = record { taints = []; annotations = [] };
  rule = network_rule;
}

abbrev pub ready_node : Node
ready_node = first_node cluster.first

abbrev pub unready_node : Node
unready_node = second_node cluster.second

abbrev pub listed : List Node
listed = ready_node ∷ unready_node ∷ []
