-- ===== src/Memory/Objects.antt =====
-- The types of api/v1alpha1/nodereadinessrule_types.go as they lie in memory: a slice or a pointer
-- is the address of an array. The structs of the Kubernetes libraries are parameters.
pub mod Kinds
use node_readiness_controlle.Prelude.{ℕ, String, Bool, List, Option, none, some, ◌≡◌, refl}
use node_readiness_controlle.Api.{
  Taint, LabelSelector, TaintStatus, ConditionRequirement, ConditionEvaluationResult,
  NodeEvaluation, NodeFailure, DryRunResults, NodeReadinessRuleSpec, NodeReadinessRuleStatus,
  NodeReadinessRule,
}
use node_readiness_controlle.Memory.Heap.{Heap, Kind}
use node_readiness_controlle.Memory.Copies.{Copier}

-- metav1.ObjectMeta, metav1.ListMeta, metav1.Time, corev1.Taint and metav1.LabelSelector in memory,
-- with the cells that they point to, and what the fields of a ListMeta stand for.
pub record LibraryTypes : Type 1 where
  pub ObjectMeta : Type 0
  pub ListMeta : Type 0
  pub Time : Type 0
  pub TaintObject : Type 0
  pub SelectorObject : Type 0
  pub LibraryCell : Type 0
  pub ListMetaValue : Type 0

pub record TypeMeta : Type 0 where
  pub kind : String
  pub api_version : String

-- The metadata that the source uses.
pub record Metadata : Type 0 where
  pub name : String
  pub generation : ℕ
  pub resource_version : String
  pub deletion_timestamp : Option ℕ
  pub finalizers : List String

pub record DryRunResultsObject : Type 0 where
  pub affected_nodes : Option ℕ
  pub taints_to_add : Option ℕ
  pub taints_to_remove : Option ℕ
  pub risky_operations : Option ℕ
  pub summary : String

module _ (T : LibraryTypes) where
  pub record NodeEvaluationObject : Type 0 where
    pub node_name : String
    pub condition_results : Option ℕ
    pub taint_status : Option TaintStatus
    pub last_evaluation_time : T.Time

  pub record NodeFailureObject : Type 0 where
    pub node_name : String
    pub reason : String
    pub message : String
    pub last_evaluation_time : T.Time

  pub record SpecObject : Type 0 where
    pub conditions : Option ℕ
    pub enforcement_mode : String
    pub taint : T.TaintObject
    pub node_selector : T.SelectorObject
    pub dry_run : Bool

  pub record StatusObject : Type 0 where
    pub observed_generation : ℕ
    pub applied_nodes : Option ℕ
    pub failed_nodes : Option ℕ
    pub node_evaluations : Option ℕ
    pub dry_run_results : DryRunResultsObject

  pub record RuleObject : Type 0 where
    pub type_meta : TypeMeta
    pub object_meta : T.ObjectMeta
    pub spec : SpecObject
    pub status : StatusObject

  pub record RuleListObject : Type 0 where
    pub type_meta : TypeMeta
    pub list_meta : T.ListMeta
    pub items : Option ℕ

  -- The arrays that there are.
  pub data Cell : Type 0 where
    numbers : List ℕ → Cell
    texts : List String → Cell
    requirements : List ConditionRequirement → Cell
    results : List ConditionEvaluationResult → Cell
    evaluations : List NodeEvaluationObject → Cell
    failures : List NodeFailureObject → Cell
    dry_runs : List DryRunResultsObject → Cell
    specs : List SpecObject → Cell
    statuses : List StatusObject → Cell
    rules : List RuleObject → Cell
    rule_lists : List RuleListObject → Cell
    library : T.LibraryCell → Cell

-- What a rule and a list of rules stand for.
pub record RuleValue : Type 0 where
  pub type_meta : TypeMeta
  pub rule : NodeReadinessRule

pub record RuleListValue (T : LibraryTypes) : Type 0 where
  pub type_meta : TypeMeta
  pub metadata : T.ListMetaValue
  pub items : List RuleValue

-- DeepCopyInto of the types of the libraries.
pub record Library (T : LibraryTypes) : Type 0 where
  pub object_meta : Copier (Cell T) T.ObjectMeta Metadata
  pub list_meta : Copier (Cell T) T.ListMeta T.ListMetaValue
  pub time : Copier (Cell T) T.Time ℕ
  pub taint : Copier (Cell T) T.TaintObject Taint
  pub selector : Copier (Cell T) T.SelectorObject LabelSelector
