-- ===== src/Memory/Rules/Types.antt =====
-- The types that api/v1alpha1/zz_generated.deepcopy.go has a DeepCopy for, and each of these.
use node_readiness_controlle.Prelude.{ℕ, Option, some, ◌≡◌, refl}
use node_readiness_controlle.Api.{
  ConditionRequirement, ConditionEvaluationResult, NodeEvaluation, NodeFailure, DryRunResults,
  NodeReadinessRuleSpec, NodeReadinessRuleStatus,
}
use node_readiness_controlle.Memory.Heap.{Heap, Kind, Program}
use node_readiness_controlle.Memory.Heap.Deep.{IsValidHeap}
use node_readiness_controlle.Memory.Copies.{Copier, read_pointer}
use node_readiness_controlle.Memory.Copies.Laws.{plain-IsDeep}
use node_readiness_controlle.Memory.Copies.Copied.{IsCopied, deep_copy-IsCopied}
use node_readiness_controlle.Memory.Objects.{
  LibraryTypes, DryRunResultsObject, NodeEvaluationObject, NodeFailureObject, SpecObject,
  StatusObject, RuleObject, RuleListObject, Cell, RuleValue, RuleListValue, Library,
}
use node_readiness_controlle.Memory.Objects.Kinds.{
  requirement_kind, result_kind, evaluation_kind, failure_kind, dry_run_results_kind, spec_kind,
  status_kind, rule_kind, rule_list_kind,
}
use node_readiness_controlle.Memory.Entries.{
  requirement_copier, result_copier, dry_run_results_copier, failure_copier, evaluation_copier,
  deep_copy_requirement, deep_copy_result, deep_copy_dry_run_results, deep_copy_failure,
  deep_copy_evaluation,
}
use node_readiness_controlle.Memory.Entries.Laws.{
  IsLibrary, dry_run_results-IsDeep, failure-IsDeep, evaluation-IsDeep,
}
use node_readiness_controlle.Memory.Rules.{
  rule_pointer, rule_list_pointer, object_of, deep_copy_object_rule, deep_copy_object_rule_list,
  spec_copier, status_copier, rule_copier, rule_list_copier, deep_copy_spec, deep_copy_status,
  deep_copy_rule, deep_copy_rule_list,
}
use node_readiness_controlle.Memory.Rules.Laws.{
  spec-IsDeep, status-IsDeep, rule-IsDeep, rule_list-IsDeep,
}

pub data ApiType : Type 0 where
  condition_requirement : ApiType
  condition_evaluation_result : ApiType
  dry_run_results : ApiType
  node_failure : ApiType
  node_evaluation : ApiType
  node_readiness_rule_spec : ApiType
  node_readiness_rule_status : ApiType
  node_readiness_rule : ApiType
  node_readiness_rule_list : ApiType

module _ (T : LibraryTypes) where
  -- What lies in memory, and what it stands for.
  abbrev pub Object : ApiType → Type 0
  Object condition_requirement = ConditionRequirement
  Object condition_evaluation_result = ConditionEvaluationResult
  Object dry_run_results = DryRunResultsObject
  Object node_failure = NodeFailureObject T
  Object node_evaluation = NodeEvaluationObject T
  Object node_readiness_rule_spec = SpecObject T
  Object node_readiness_rule_status = StatusObject T
  Object node_readiness_rule = RuleObject T
  Object node_readiness_rule_list = RuleListObject T

  abbrev pub Value : ApiType → Type 0
  Value condition_requirement = ConditionRequirement
  Value condition_evaluation_result = ConditionEvaluationResult
  Value dry_run_results = DryRunResults
  Value node_failure = NodeFailure
  Value node_evaluation = NodeEvaluation
  Value node_readiness_rule_spec = NodeReadinessRuleSpec
  Value node_readiness_rule_status = NodeReadinessRuleStatus
  Value node_readiness_rule = RuleValue
  Value node_readiness_rule_list = RuleListValue T

  abbrev pub kind_of : (t : ApiType) → Kind (Cell T) (Object t)
  kind_of condition_requirement = requirement_kind T
  kind_of condition_evaluation_result = result_kind T
  kind_of dry_run_results = dry_run_results_kind T
  kind_of node_failure = failure_kind T
  kind_of node_evaluation = evaluation_kind T
  kind_of node_readiness_rule_spec = spec_kind T
  kind_of node_readiness_rule_status = status_kind T
  kind_of node_readiness_rule = rule_kind T
  kind_of node_readiness_rule_list = rule_list_kind T

module _ {T : LibraryTypes} (lib : Library T) where
  abbrev pub copier_of : (t : ApiType) → Copier (Cell T) (Object T t) (Value T t)
  copier_of condition_requirement = requirement_copier lib
  copier_of condition_evaluation_result = result_copier lib
  copier_of dry_run_results = dry_run_results_copier lib
  copier_of node_failure = failure_copier lib
  copier_of node_evaluation = evaluation_copier lib
  copier_of node_readiness_rule_spec = spec_copier lib
  copier_of node_readiness_rule_status = status_copier lib
  copier_of node_readiness_rule = rule_copier lib
  copier_of node_readiness_rule_list = rule_list_copier lib

  -- DeepCopy of the type.
  abbrev pub deep_copy_of : ApiType → Option ℕ → Program (Cell T) (Option ℕ)
  deep_copy_of condition_requirement = deep_copy_requirement lib
  deep_copy_of condition_evaluation_result = deep_copy_result lib
  deep_copy_of dry_run_results = deep_copy_dry_run_results lib
  deep_copy_of node_failure = deep_copy_failure lib
  deep_copy_of node_evaluation = deep_copy_evaluation lib
  deep_copy_of node_readiness_rule_spec = deep_copy_spec lib
  deep_copy_of node_readiness_rule_status = deep_copy_status lib
  deep_copy_of node_readiness_rule = deep_copy_rule lib
  deep_copy_of node_readiness_rule_list = deep_copy_rule_list lib

  -- What DeepCopyObject gives where DeepCopy gives `copy`, for the two types that have it.
  abbrev pub GivesObject : ApiType → Option ℕ → Option ℕ → Heap (Cell T) → Heap (Cell T) → Type 0
  GivesObject node_readiness_rule p copy h after =
      deep_copy_object_rule lib p h ≡ some (object_of lib rule_pointer copy, after)
  GivesObject node_readiness_rule_list p copy h after =
      deep_copy_object_rule_list lib p h ≡ some (object_of lib rule_list_pointer copy, after)
  GivesObject _ p copy h after = Unit

  deep_copy_of-GivesObject :
      (t : ApiType) (p copy : Option ℕ) (h after : Heap (Cell T))
      → deep_copy_of t p h ≡ some (copy, after)
      → GivesObject t p copy h after
  unfolding deep_copy_object_rule deep_copy_object_rule_list
  deep_copy_of-GivesObject condition_requirement p copy h after e = tt
  deep_copy_of-GivesObject condition_evaluation_result p copy h after e = tt
  deep_copy_of-GivesObject dry_run_results p copy h after e = tt
  deep_copy_of-GivesObject node_failure p copy h after e = tt
  deep_copy_of-GivesObject node_evaluation p copy h after e = tt
  deep_copy_of-GivesObject node_readiness_rule_spec p copy h after e = tt
  deep_copy_of-GivesObject node_readiness_rule_status p copy h after e = tt
  deep_copy_of-GivesObject node_readiness_rule p copy h after e = rw e refl
  deep_copy_of-GivesObject node_readiness_rule_list p copy h after e = rw e refl

  deep_copy_of-IsCopied :
      (deep : IsLibrary lib) (t : ApiType) (p : Option ℕ) (v : Option (Value T t))
      (h : Heap (Cell T))
      → IsValidHeap h
      → read_pointer (kind_of T t) (copier_of t) h p ≡ some v
      → IsCopied (kind_of T t) (copier_of t) p v h (deep_copy_of t p h)
  unfolding deep_copy_requirement deep_copy_result deep_copy_dry_run_results deep_copy_failure
      deep_copy_evaluation deep_copy_spec deep_copy_status deep_copy_rule deep_copy_rule_list
  deep_copy_of-IsCopied deep condition_requirement p v h valid e =
      deep_copy-IsCopied (requirement_kind T) (requirement_copier lib) plain-IsDeep p v h valid e
  deep_copy_of-IsCopied deep condition_evaluation_result p v h valid e =
      deep_copy-IsCopied (result_kind T) (result_copier lib) plain-IsDeep p v h valid e
  deep_copy_of-IsCopied deep dry_run_results p v h valid e =
      deep_copy-IsCopied (dry_run_results_kind T) (dry_run_results_copier lib)
        (dry_run_results-IsDeep lib deep) p v h valid e
  deep_copy_of-IsCopied deep node_failure p v h valid e =
      deep_copy-IsCopied (failure_kind T) (failure_copier lib) (failure-IsDeep lib deep) p v h valid
        e
  deep_copy_of-IsCopied deep node_evaluation p v h valid e =
      deep_copy-IsCopied (evaluation_kind T) (evaluation_copier lib) (evaluation-IsDeep lib deep) p
        v h valid e
  deep_copy_of-IsCopied deep node_readiness_rule_spec p v h valid e =
      deep_copy-IsCopied (spec_kind T) (spec_copier lib) (spec-IsDeep lib deep) p v h valid e
  deep_copy_of-IsCopied deep node_readiness_rule_status p v h valid e =
      deep_copy-IsCopied (status_kind T) (status_copier lib) (status-IsDeep lib deep) p v h valid e
  deep_copy_of-IsCopied deep node_readiness_rule p v h valid e =
      deep_copy-IsCopied (rule_kind T) (rule_copier lib) (rule-IsDeep lib deep) p v h valid e
  deep_copy_of-IsCopied deep node_readiness_rule_list p v h valid e =
      deep_copy-IsCopied (rule_list_kind T) (rule_list_copier lib) (rule_list-IsDeep lib deep) p v h
        valid e

  -- Where the copies that the libraries make are deep: DeepCopy of each of the nine types, of a
  -- nil pointer or of one to a value that can be read, ends without a fault and changes no cell
  -- that was in use; the copy reads as the same value in every memory that has the cells that it
  -- made, whatever happens to the others, and the original reads as that value in every memory
  -- that has the cells from before. DeepCopyObject of a rule or of a list of rules gives an
  -- object of that type with the pointer to such a copy, and nil for nil.
  pub deep_copy_of_lem :
      (deep : IsLibrary lib) (t : ApiType) (p : Option ℕ) (v : Option (Value T t))
      (h : Heap (Cell T))
      → IsValidHeap h
      → read_pointer (kind_of T t) (copier_of t) h p ≡ some v
      → (copied : IsCopied (kind_of T t) (copier_of t) p v h (deep_copy_of t p h)) × GivesObject t p
          copied.copy h copied.after
  deep_copy_of_lem deep t p v h valid e =
      let copied = deep_copy_of-IsCopied deep t p v h valid e in
      (copied, deep_copy_of-GivesObject t p copied.copy h copied.after copied.ends)
