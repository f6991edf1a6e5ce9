-- ===== src/Tests/Admissions.antt =====
-- The theorems on the validating webhook, at the sample cluster.
use node_readiness_controlle.Prelude.{
  All, List, String, StringMap, [], arith, eq_iff, false, if◌then◌else◌, refl, true, ◌==◌, ◌↔◌, ◌∷◌,
  ◌≡◌, ◌≢◌,
}
use node_readiness_controlle.Api.{NodeReadinessRule}
use node_readiness_controlle.Platform.{Client, ok}
use node_readiness_controlle.Tests.Sample.{Cluster, cluster, network_rule, network_spec, sample}
use node_readiness_controlle.Webhook.Accept.{validate_create_iff, validate_update_iff}
use node_readiness_controlle.Webhook.Admission.{
  rule_object, validate_create, validate_node_readiness_rule, validate_update,
}
use node_readiness_controlle.Webhook.Conflicts.{
  conflict_errors, node_selectors_overlap, validate_taint_conflicts,
}
use node_readiness_controlle.Webhook.Policy.{Admitted-IsPolicy, IsPolicy, created, empty}
use node_readiness_controlle.Webhook.Spec.{FieldError, validate_conditions, validate_spec}
use node_readiness_controlle.Webhook.Verdict.{Clashes, IsWellFormed}

abbrev show_errors : List FieldError → String
show_errors errors = "invalid"

-- Another rule for the same taint and the same nodes.
abbrev twin_rule : NodeReadinessRule
twin_rule = record network_rule { name = "twin" }

validate_create_iff_example :
    ((validate_create sample show_errors (rule_object twin_rule) cluster).0 ≡ ok tt) ↔ (
      IsWellFormed sample network_spec
      × All (λ existing. ¬ Clashes sample false twin_rule existing) (network_rule ∷ []))
validate_create_iff_example =
    validate_create_iff sample show_errors twin_rule cluster cluster (network_rule ∷ []) refl

validate_update_iff_example :
    ((validate_update sample show_errors
        (rule_object network_rule)
        (rule_object network_rule)
        cluster).0
      ≡ ok tt)
    ↔ (IsWellFormed sample network_spec
        × All (λ existing. ¬ Clashes sample true network_rule existing) (network_rule ∷ []))
validate_update_iff_example =
    validate_update_iff sample show_errors network_rule cluster cluster (rule_object network_rule)
      (network_rule ∷ []) refl

-- Another rule for the same taint, on other nodes.
abbrev zone_rule : NodeReadinessRule
zone_rule = record network_rule {
  name = "zone";
  spec = record network_spec {
    node_selector = record { match_labels = ("zone", "a") ∷ []; match_expressions = [] };
  };
}

-- A server with no rule, or with the first one.
abbrev rule_server : Client Cluster (StringMap String)
rule_server = record sample {
  list_rules = λ w. (ok (if w.rule.name == "network" then network_rule ∷ [] else []), w);
}

abbrev before_rules : Cluster
before_rules = record cluster { rule = record network_rule { name = "" } }

names_differ : network_rule.name ≢ zone_rule.name
names_differ = ground (arith, eq_iff "network" "zone")

Admitted-IsPolicy_example : IsPolicy rule_server (zone_rule ∷ network_rule ∷ [])
unfolding validate_create validate_node_readiness_rule validate_spec validate_conditions
    validate_taint_conflicts conflict_errors node_selectors_overlap
Admitted-IsPolicy_example = Admitted-IsPolicy rule_server show_errors (
    created zone_rule cluster cluster
      (created network_rule before_rules before_rules empty tt refl refl) (names_differ, tt) refl
      refl)
