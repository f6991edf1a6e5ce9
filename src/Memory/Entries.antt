-- ===== src/Memory/Entries.antt =====
-- api/v1alpha1/zz_generated.deepcopy.go for the entries of the spec and the status: what each type
-- stands for in memory, its DeepCopyInto and its DeepCopy.
pub mod Laws
use node_readiness_controlle.Prelude.{ℕ, String, List, Option, none, some}
use node_readiness_controlle.Api.{
  Taint, LabelSelector, ConditionRequirement, ConditionEvaluationResult, NodeEvaluation,
  NodeFailure, DryRunResults, NodeReadinessRuleSpec, NodeReadinessRuleStatus, NodeReadinessRule,
}
use node_readiness_controlle.Memory.Heap.{Heap, Program, and_then, pure, ◌>>=◌}
use node_readiness_controlle.Memory.Copies.{Copier, plain, slice, pointer, deep_copy}
use node_readiness_controlle.Memory.Objects.{
  LibraryTypes, Metadata, DryRunResultsObject, NodeEvaluationObject, NodeFailureObject, SpecObject,
  StatusObject, RuleObject, RuleListObject, Cell, RuleValue, RuleListValue, Library,
}
use node_readiness_controlle.Memory.Objects.Kinds.{
  number_kind, text_kind, requirement_kind, result_kind, evaluation_kind, failure_kind,
  dry_run_results_kind, spec_kind, status_kind, rule_kind, rule_list_kind,
}

module _ {T : LibraryTypes} (lib : Library T) where
  -- The slices, and the pointers to numbers.
  abbrev pub number_pointer : Copier (Cell T) (Option ℕ) (Option ℕ)
  number_pointer = pointer (number_kind T) plain

  abbrev pub text_slice : Copier (Cell T) (Option ℕ) (List String)
  text_slice = slice (text_kind T) plain

  -- ConditionRequirement
  abbrev pub deep_copy_into_requirement :
      ConditionRequirement → Program (Cell T) ConditionRequirement
  deep_copy_into_requirement object = pure object

  abbrev pub requirement_copier : Copier (Cell T) ConditionRequirement ConditionRequirement
  requirement_copier = record {
    read = λ h object. some object;
    deep_copy_into = deep_copy_into_requirement;
  }

  abbrev pub requirement_slice : Copier (Cell T) (Option ℕ) (List ConditionRequirement)
  requirement_slice = slice (requirement_kind T) requirement_copier

  unfoldable pub deep_copy_requirement : Option ℕ → Program (Cell T) (Option ℕ)
  deep_copy_requirement = deep_copy (requirement_kind T) requirement_copier

  -- ConditionEvaluationResult
  abbrev pub deep_copy_into_result :
      ConditionEvaluationResult → Program (Cell T) ConditionEvaluationResult
  deep_copy_into_result object = pure object

  abbrev pub result_copier : Copier (Cell T) ConditionEvaluationResult ConditionEvaluationResult
  result_copier = record { read = λ h object. some object; deep_copy_into = deep_copy_into_result }

  abbrev pub result_slice : Copier (Cell T) (Option ℕ) (List ConditionEvaluationResult)
  result_slice = slice (result_kind T) result_copier

  unfoldable pub deep_copy_result : Option ℕ → Program (Cell T) (Option ℕ)
  deep_copy_result = deep_copy (result_kind T) result_copier

  -- DryRunResults
  abbrev pub read_dry_run_results : Heap (Cell T) → DryRunResultsObject → Option DryRunResults
  read_dry_run_results h object =
      and_then (number_pointer.read h object.affected_nodes) (λ affected.
        and_then (number_pointer.read h object.taints_to_add) (λ to_add.
          and_then (number_pointer.read h object.taints_to_remove) (λ to_remove.
            and_then (number_pointer.read h object.risky_operations) (λ risky. some (record {
              affected_nodes = affected;
              taints_to_add = to_add;
              taints_to_remove = to_remove;
              risky_operations = risky;
              summary = object.summary;
            })))))

  abbrev pub deep_copy_into_dry_run_results :
      DryRunResultsObject → Program (Cell T) DryRunResultsObject
  deep_copy_into_dry_run_results object = do
    affected ← number_pointer.deep_copy_into object.affected_nodes
    to_add ← number_pointer.deep_copy_into object.taints_to_add
    to_remove ← number_pointer.deep_copy_into object.taints_to_remove
    risky ← number_pointer.deep_copy_into object.risky_operations
    pure (record object {
      affected_nodes = affected;
      taints_to_add = to_add;
      taints_to_remove = to_remove;
      risky_operations = risky;
    })

  abbrev pub dry_run_results_copier : Copier (Cell T) DryRunResultsObject DryRunResults
  dry_run_results_copier = record {
    read = read_dry_run_results;
    deep_copy_into = deep_copy_into_dry_run_results;
  }

  unfoldable pub deep_copy_dry_run_results : Option ℕ → Program (Cell T) (Option ℕ)
  deep_copy_dry_run_results = deep_copy (dry_run_results_kind T) dry_run_results_copier

  -- NodeFailure
  abbrev pub read_failure : Heap (Cell T) → NodeFailureObject T → Option NodeFailure
  read_failure h object = and_then (lib.time.read h object.last_evaluation_time) (λ time.
      some (record {
        node_name = object.node_name;
        reason = object.reason;
        message = object.message;
        last_evaluation_time = time;
      }))

  abbrev pub deep_copy_into_failure : NodeFailureObject T → Program (Cell T) (NodeFailureObject T)
  deep_copy_into_failure object = do
    time ← lib.time.deep_copy_into object.last_evaluation_time
    pure (record object { last_evaluation_time = time })

  abbrev pub failure_copier : Copier (Cell T) (NodeFailureObject T) NodeFailure
  failure_copier = record { read = read_failure; deep_copy_into = deep_copy_into_failure }

  abbrev pub failure_slice : Copier (Cell T) (Option ℕ) (List NodeFailure)
  failure_slice = slice (failure_kind T) failure_copier

  unfoldable pub deep_copy_failure : Option ℕ → Program (Cell T) (Option ℕ)
  deep_copy_failure = deep_copy (failure_kind T) failure_copier

  -- NodeEvaluation
  abbrev pub read_evaluation : Heap (Cell T) → NodeEvaluationObject T → Option NodeEvaluation
  read_evaluation h object = and_then (result_slice.read h object.condition_results) (λ results.
      and_then (lib.time.read h object.last_evaluation_time) (λ time. some (record {
        node_name = object.node_name;
        condition_results = results;
        taint_status = object.taint_status;
        last_evaluation_time = time;
      })))

  abbrev pub deep_copy_into_evaluation :
      NodeEvaluationObject T → Program (Cell T) (NodeEvaluationObject T)
  deep_copy_into_evaluation object = do
    results ← result_slice.deep_copy_into object.condition_results
    time ← lib.time.deep_copy_into object.last_evaluation_time
    pure (record object { condition_results = results; last_evaluation_time = time })

  abbrev pub evaluation_copier : Copier (Cell T) (NodeEvaluationObject T) NodeEvaluation
  evaluation_copier = record { read = read_evaluation; deep_copy_into = deep_copy_into_evaluation }

  abbrev pub evaluation_slice : Copier (Cell T) (Option ℕ) (List NodeEvaluation)
  evaluation_slice = slice (evaluation_kind T) evaluation_copier

  unfoldable pub deep_copy_evaluation : Option ℕ → Program (Cell T) (Option ℕ)
  deep_copy_evaluation = deep_copy (evaluation_kind T) evaluation_copier
