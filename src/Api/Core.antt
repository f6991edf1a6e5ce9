-- ===== src/Api/Core.antt =====
-- The fields of the Kubernetes types Taint, NodeCondition, Node and LabelSelector that the source
-- reads or writes. Statuses and effects are texts there too; a nil slice or map reads like an
-- empty one, and is the empty list.
use node_readiness_controlle.Prelude.{String, List, StringMap}

-- corev1.Taint, without the time at which it was added, which the source never reads.
pub record Taint : Type 0 where
  pub key : String
  pub value : String
  pub effect : String

-- corev1.NodeCondition: its type and status.
pub record NodeCondition : Type 0 where
  pub cond_type : String
  pub status : String

pub record Node : Type 0 where
  pub name : String
  pub labels : StringMap String
  pub annotations : StringMap String
  pub taints : List Taint
  pub conditions : List NodeCondition

pub record LabelSelectorRequirement : Type 0 where
  pub key : String
  pub operator : String
  pub values : List String

pub record LabelSelector : Type 0 where
  pub match_labels : StringMap String
  pub match_expressions : List LabelSelectorRequirement

-- corev1.ConditionUnknown
abbrev pub condition_unknown : String
condition_unknown = "Unknown"

abbrev pub condition_true : String
condition_true = "True"
