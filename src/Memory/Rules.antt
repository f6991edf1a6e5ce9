-- ===== src/Memory/Rules.antt =====
-- api/v1alpha1/zz_generated.deepcopy.go for rules and lists of rules: what each type stands for in
-- memory, its DeepCopyInto, its DeepCopy and its DeepCopyObject.
pub mod Laws
pub mod Types
use node_readiness_controlle.Prelude.{ℕ, String, List, Option, none, some}
use node_readiness_controlle.Api.{
  Taint, LabelSelector, ConditionRequirement, ConditionEvaluationResult, NodeEvaluation,
  NodeFailure, DryRunResults, NodeReadinessRuleSpec, NodeReadinessRuleStatus, NodeReadinessRule,
}
use node_readiness_controlle.Memory.Heap.{Heap, Program, and_then, pure, ◌>>=◌}
use node_readiness_controlle.Memory.Copies.{Copier, plain, slice, pointer, deep_copy}
use node_readiness_controlle.Memory.Objects.{
  LibraryTypes, Metadata, DryRunResultsObject, NodeEvaluationObject, NodeFailureObject, SpecObject,
  StatusObject, RuleObject, RuleListObject, Cell, RuleValue, RuleListValue, Library,
}
use node_readiness_controlle.Memory.Objects.Kinds.{
  number_kind, text_kind, requirement_kind, result_kind, evaluation_kind, failure_kind,
  dry_run_results_kind, spec_kind, status_kind, rule_kind, rule_list_kind,
}
use node_readiness_controlle.Memory.Entries.{
  number_pointer, text_slice, requirement_slice, result_slice, failure_slice, evaluation_slice,
  dry_run_results_copier,
}

-- A runtime.Object that is not nil: the type, and the pointer.
pub data RuntimeObject : Type 0 where
  rule_pointer : ℕ → RuntimeObject
  rule_list_pointer : ℕ → RuntimeObject

abbrev pub rule_of : Metadata → NodeReadinessRuleSpec → NodeReadinessRuleStatus → NodeReadinessRule
rule_of meta spec status = record {
  name = meta.name;
  generation = meta.generation;
  resource_version = meta.resource_version;
  deletion_timestamp = meta.deletion_timestamp;
  finalizers = meta.finalizers;
  spec = spec;
  status = status;
}

module _ {T : LibraryTypes} (lib : Library T) where
  -- NodeReadinessRuleSpec
  abbrev pub read_spec : Heap (Cell T) → SpecObject T → Option NodeReadinessRuleSpec
  read_spec h object = and_then ((requirement_slice lib).read h object.conditions) (λ conditions.
      and_then (lib.taint.read h object.taint) (λ taint.
        and_then (lib.selector.read h object.node_selector) (λ selector. some (record {
          conditions = conditions;
          enforcement_mode = object.enforcement_mode;
          taint = taint;
          node_selector = selector;
          dry_run = object.dry_run;
        }))))

  abbrev pub deep_copy_into_spec : SpecObject T → Program (Cell T) (SpecObject T)
  deep_copy_into_spec object = do
    conditions ← (requirement_slice lib).deep_copy_into object.conditions
    taint ← lib.taint.deep_copy_into object.taint
    selector ← lib.selector.deep_copy_into object.node_selector
    pure (record object { conditions = conditions; taint = taint; node_selector = selector })

  abbrev pub spec_copier : Copier (Cell T) (SpecObject T) NodeReadinessRuleSpec
  spec_copier = record { read = read_spec; deep_copy_into = deep_copy_into_spec }

  unfoldable pub deep_copy_spec : Option ℕ → Program (Cell T) (Option ℕ)
  deep_copy_spec = deep_copy (spec_kind T) spec_copier

  -- NodeReadinessRuleStatus
  abbrev pub read_status : Heap (Cell T) → StatusObject T → Option NodeReadinessRuleStatus
  read_status h object = and_then ((text_slice lib).read h object.applied_nodes) (λ applied.
      and_then ((failure_slice lib).read h object.failed_nodes) (λ failed.
        and_then ((evaluation_slice lib).read h object.node_evaluations) (λ evaluations.
          and_then ((dry_run_results_copier lib).read h object.dry_run_results) (λ dry_run.
            some (record {
              observed_generation = object.observed_generation;
              applied_nodes = applied;
              failed_nodes = failed;
              node_evaluations = evaluations;
              dry_run_results = dry_run;
            })))))

  abbrev pub deep_copy_into_status : StatusObject T → Program (Cell T) (StatusObject T)
  deep_copy_into_status object = do
    applied ← (text_slice lib).deep_copy_into object.applied_nodes
    failed ← (failure_slice lib).deep_copy_into object.failed_nodes
    evaluations ← (evaluation_slice lib).deep_copy_into object.node_evaluations
    dry_run ← (dry_run_results_copier lib).deep_copy_into object.dry_run_results
    pure (record object {
      applied_nodes = applied;
      failed_nodes = failed;
      node_evaluations = evaluations;
      dry_run_results = dry_run;
    })

  abbrev pub status_copier : Copier (Cell T) (StatusObject T) NodeReadinessRuleStatus
  status_copier = record { read = read_status; deep_copy_into = deep_copy_into_status }

  unfoldable pub deep_copy_status : Option ℕ → Program (Cell T) (Option ℕ)
  deep_copy_status = deep_copy (status_kind T) status_copier

  -- NodeReadinessRule
  abbrev pub read_rule : Heap (Cell T) → RuleObject T → Option RuleValue
  read_rule h object = and_then (lib.object_meta.read h object.object_meta) (λ meta.
      and_then (spec_copier.read h object.spec) (λ spec.
        and_then (status_copier.read h object.status) (λ status.
          some (record { type_meta = object.type_meta; rule = rule_of meta spec status }))))

  abbrev pub deep_copy_into_rule : RuleObject T → Program (Cell T) (RuleObject T)
  deep_copy_into_rule object = do
    meta ← lib.object_meta.deep_copy_into object.object_meta
    spec ← spec_copier.deep_copy_into object.spec
    status ← status_copier.deep_copy_into object.status
    pure (record object { object_meta = meta; spec = spec; status = status })

  abbrev pub rule_copier : Copier (Cell T) (RuleObject T) RuleValue
  rule_copier = record { read = read_rule; deep_copy_into = deep_copy_into_rule }

  abbrev pub rule_slice : Copier (Cell T) (Option ℕ) (List RuleValue)
  rule_slice = slice (rule_kind T) rule_copier

  unfoldable pub deep_copy_rule : Option ℕ → Program (Cell T) (Option ℕ)
  deep_copy_rule = deep_copy (rule_kind T) rule_copier

  -- NodeReadinessRuleList
  abbrev pub read_rule_list : Heap (Cell T) → RuleListObject T → Option (RuleListValue T)
  read_rule_list h object = and_then (lib.list_meta.read h object.list_meta) (λ meta.
      and_then (rule_slice.read h object.items)
        (λ items. some (record { type_meta = object.type_meta; metadata = meta; items = items })))

  abbrev pub deep_copy_into_rule_list : RuleListObject T → Program (Cell T) (RuleListObject T)
  deep_copy_into_rule_list object = do
    meta ← lib.list_meta.deep_copy_into object.list_meta
    items ← rule_slice.deep_copy_into object.items
    pure (record object { list_meta = meta; items = items })

  abbrev pub rule_list_copier : Copier (Cell T) (RuleListObject T) ((RuleListValue T))
  rule_list_copier = record { read = read_rule_list; deep_copy_into = deep_copy_into_rule_list }

  unfoldable pub deep_copy_rule_list : Option ℕ → Program (Cell T) (Option ℕ)
  deep_copy_rule_list = deep_copy (rule_list_kind T) rule_list_copier

  -- DeepCopyObject of the two types: a nil copy gives a nil interface.
  abbrev pub object_of : (ℕ → RuntimeObject) → Option ℕ → Option RuntimeObject
  object_of f none = none
  object_of f (some p) = some (f p)

  unfoldable pub deep_copy_object_rule : Option ℕ → Program (Cell T) (Option RuntimeObject)
  deep_copy_object_rule p = deep_copy_rule p >>= λ q. pure (object_of rule_pointer q)

  unfoldable pub deep_copy_object_rule_list : Option ℕ → Program (Cell T) (Option RuntimeObject)
  deep_copy_object_rule_list p = deep_copy_rule_list p >>= λ q. pure (object_of rule_list_pointer q)
