-- ===== src/Api/Rule.antt =====
-- api/v1alpha1/nodereadinessrule_types.go: the rule, its spec and its status. Times are counts on
-- the clock of the platform; an int32 behind a pointer is an optional bit pattern.
use node_readiness_controlle.Prelude.{ℕ, String, Bool, List, Option, none}
use node_readiness_controlle.Api.Core.{Taint, LabelSelector}

-- EnforcementMode is a text in the source: other values reach the validation.
abbrev pub bootstrap_only : String
bootstrap_only = "bootstrap-only"

abbrev pub continuous : String
continuous = "continuous"

pub data TaintStatus : Type 0 where
  present absent : TaintStatus

pub record ConditionRequirement : Type 0 where
  pub cond_type : String
  pub required_status : String

pub record NodeReadinessRuleSpec : Type 0 where
  pub conditions : List ConditionRequirement
  pub enforcement_mode : String
  pub taint : Taint
  pub node_selector : LabelSelector
  pub dry_run : Bool

pub record ConditionEvaluationResult : Type 0 where
  pub cond_type : String
  pub current_status : String
  pub required_status : String
  pub satisfied : Bool
  pub missing : Bool

pub record NodeEvaluation : Type 0 where
  pub node_name : String
  pub condition_results : List ConditionEvaluationResult
  pub taint_status : Option TaintStatus
  pub last_evaluation_time : ℕ

pub record NodeFailure : Type 0 where
  pub node_name : String
  pub reason : String
  pub message : String
  pub last_evaluation_time : ℕ

pub record DryRunResults : Type 0 where
  pub affected_nodes : Option ℕ
  pub taints_to_add : Option ℕ
  pub taints_to_remove : Option ℕ
  pub risky_operations : Option ℕ
  pub summary : String

-- `DryRunResults{}`
abbrev pub no_dry_run_results : DryRunResults
no_dry_run_results = record {
  affected_nodes = none;
  taints_to_add = none;
  taints_to_remove = none;
  risky_operations = none;
  summary = "";
}

pub record NodeReadinessRuleStatus : Type 0 where
  pub observed_generation : ℕ
  pub applied_nodes : List String
  pub failed_nodes : List NodeFailure
  pub node_evaluations : List NodeEvaluation
  pub dry_run_results : DryRunResults

-- The rule, with the metadata that the source uses.
pub record NodeReadinessRule : Type 0 where
  pub name : String
  pub generation : ℕ
  pub resource_version : String
  pub deletion_timestamp : Option ℕ
  pub finalizers : List String
  pub spec : NodeReadinessRuleSpec
  pub status : NodeReadinessRuleStatus

-- A rule with other evaluations in its status.
abbrev pub with_evaluations : NodeReadinessRule → List NodeEvaluation → NodeReadinessRule
with_evaluations rule evaluations = record rule {
  status = record (rule.status) { node_evaluations = evaluations };
}

-- A rule with other failures in its status.
abbrev pub with_failures : NodeReadinessRule → List NodeFailure → NodeReadinessRule
with_failures rule failures = record rule {
  status = record (rule.status) { failed_nodes = failures };
}
