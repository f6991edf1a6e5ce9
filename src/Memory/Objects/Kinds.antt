-- ===== src/Memory/Objects/Kinds.antt =====
-- The kinds of arrays in memory, one for each type that api/v1alpha1/zz_generated.deepcopy.go makes
-- an array or a single value of.
use node_readiness_controlle.Prelude.{ℕ, String, List, Option, none, some, refl}
use node_readiness_controlle.Api.{ConditionRequirement, ConditionEvaluationResult}
use node_readiness_controlle.Memory.Heap.{Kind}
use node_readiness_controlle.Memory.Objects.{
  LibraryTypes, DryRunResultsObject, NodeEvaluationObject, NodeFailureObject, SpecObject,
  StatusObject, RuleObject, RuleListObject, Cell, numbers, texts, requirements, results,
  evaluations, failures, dry_runs, specs, statuses, rules, rule_lists,
}

module _ (T : LibraryTypes) where
  abbrev numbers_of : Cell T → Option (List ℕ)
  numbers_of (numbers xs) = some xs
  numbers_of _ = none

  abbrev pub number_kind : Kind (Cell T) ℕ
  number_kind = record { array = numbers; items = numbers_of; items-array = λ xs. refl }

  abbrev texts_of : Cell T → Option (List String)
  texts_of (texts xs) = some xs
  texts_of _ = none

  abbrev pub text_kind : Kind (Cell T) String
  text_kind = record { array = texts; items = texts_of; items-array = λ xs. refl }

  abbrev requirements_of : Cell T → Option (List ConditionRequirement)
  requirements_of (requirements xs) = some xs
  requirements_of _ = none

  abbrev pub requirement_kind : Kind (Cell T) ConditionRequirement
  requirement_kind = record {
    array = requirements;
    items = requirements_of;
    items-array = λ xs. refl;
  }

  abbrev result_items : Cell T → Option (List ConditionEvaluationResult)
  result_items (results xs) = some xs
  result_items _ = none

  abbrev pub result_kind : Kind (Cell T) ConditionEvaluationResult
  result_kind = record { array = results; items = result_items; items-array = λ xs. refl }

  abbrev evaluations_of : Cell T → Option (List (NodeEvaluationObject T))
  evaluations_of (evaluations xs) = some xs
  evaluations_of _ = none

  abbrev pub evaluation_kind : Kind (Cell T) (NodeEvaluationObject T)
  evaluation_kind = record { array = evaluations; items = evaluations_of; items-array = λ xs. refl }

  abbrev failures_of : Cell T → Option (List (NodeFailureObject T))
  failures_of (failures xs) = some xs
  failures_of _ = none

  abbrev pub failure_kind : Kind (Cell T) (NodeFailureObject T)
  failure_kind = record { array = failures; items = failures_of; items-array = λ xs. refl }

  abbrev dry_runs_of : Cell T → Option (List DryRunResultsObject)
  dry_runs_of (dry_runs xs) = some xs
  dry_runs_of _ = none

  abbrev pub dry_run_results_kind : Kind (Cell T) DryRunResultsObject
  dry_run_results_kind = record { array = dry_runs; items = dry_runs_of; items-array = λ xs. refl }

  abbrev specs_of : Cell T → Option (List (SpecObject T))
  specs_of (specs xs) = some xs
  specs_of _ = none

  abbrev pub spec_kind : Kind (Cell T) (SpecObject T)
  spec_kind = record { array = specs; items = specs_of; items-array = λ xs. refl }

  abbrev statuses_of : Cell T → Option (List (StatusObject T))
  statuses_of (statuses xs) = some xs
  statuses_of _ = none

  abbrev pub status_kind : Kind (Cell T) (StatusObject T)
  status_kind = record { array = statuses; items = statuses_of; items-array = λ xs. refl }

  abbrev rules_of : Cell T → Option (List (RuleObject T))
  rules_of (rules xs) = some xs
  rules_of _ = none

  abbrev pub rule_kind : Kind (Cell T) (RuleObject T)
  rule_kind = record { array = rules; items = rules_of; items-array = λ xs. refl }

  abbrev rule_lists_of : Cell T → Option (List (RuleListObject T))
  rule_lists_of (rule_lists xs) = some xs
  rule_lists_of _ = none

  abbrev pub rule_list_kind : Kind (Cell T) (RuleListObject T)
  rule_list_kind = record { array = rule_lists; items = rule_lists_of; items-array = λ xs. refl }
