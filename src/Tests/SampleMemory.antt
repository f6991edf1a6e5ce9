-- ===== src/Tests/SampleMemory.antt =====
-- A memory with one rule in it, and structs of the libraries without pointers.
use node_readiness_controlle.Prelude.{
  String, [], arith, false, if◌then◌else◌, nat_eq, none, some, ℕ, ◌∷◌,
}
use node_readiness_controlle.Api.{LabelSelector, Taint, present}
use node_readiness_controlle.Memory.Copies.{plain}
use node_readiness_controlle.Memory.Copies.Laws.{plain-IsDeep}
use node_readiness_controlle.Memory.Entries.Laws.{IsLibrary}
use node_readiness_controlle.Memory.Heap.{Heap}
use node_readiness_controlle.Memory.Heap.Deep.{IsValidHeap}
use node_readiness_controlle.Memory.Objects.{
  Cell, Library, LibraryTypes, Metadata, RuleObject, RuleValue, evaluations, numbers, requirements,
  results, rules, texts,
}
use node_readiness_controlle.Tests.Sample.{network_rule, network_spec, network_taint}

-- The structs of the libraries without pointers.
abbrev pub flat_types : LibraryTypes
flat_types = record {
  ObjectMeta = Metadata;
  ListMeta = String;
  Time = ℕ;
  TaintObject = Taint;
  SelectorObject = LabelSelector;
  LibraryCell = Unit;
  ListMetaValue = String;
}

abbrev pub flat : Library flat_types
flat = record {
  object_meta = plain;
  list_meta = plain;
  time = plain;
  taint = plain;
  selector = plain;
}

pub flat-IsLibrary : IsLibrary flat
flat-IsLibrary = record {
  object_meta = plain-IsDeep;
  list_meta = plain-IsDeep;
  time = plain-IsDeep;
  taint = plain-IsDeep;
  selector = plain-IsDeep;
}

-- A rule at 0, whose slices and counter are at 1 to 5.
abbrev pub rule_in_memory : RuleObject flat_types
rule_in_memory = record {
  type_meta = record { kind = "NodeReadinessRule"; api_version = "v1alpha1" };
  object_meta = record {
    name = "network";
    generation = 3;
    resource_version = "41";
    deletion_timestamp = none;
    finalizers = [];
  };
  spec = record {
    conditions = some 1;
    enforcement_mode = "continuous";
    taint = network_taint;
    node_selector = network_spec.node_selector;
    dry_run = false;
  };
  status = record {
    observed_generation = 2;
    applied_nodes = some 2;
    failed_nodes = none;
    node_evaluations = some 3;
    dry_run_results = record {
      affected_nodes = some 5;
      taints_to_add = none;
      taints_to_remove = none;
      risky_operations = none;
      summary = "";
    };
  };
}

abbrev pub memory : Heap (Cell flat_types)
memory = record {
  next = 6;
  cell = λ p.
      if nat_eq p 0
      then some (rules (rule_in_memory ∷ []))
      else if nat_eq p 1
      then some (requirements network_spec.conditions)
      else if nat_eq p 2
      then some (texts ("worker-1" ∷ []))
      else if nat_eq p 3
      then some (
          evaluations (
            record {
              node_name = "worker-1";
              condition_results = some 4;
              taint_status = some present;
              last_evaluation_time = 7;
            }
            ∷ []))
      else if nat_eq p 4
      then some (
          results (
            record {
              cond_type = "NetworkReady";
              current_status = "False";
              required_status = "True";
              satisfied = false;
              missing = false;
            }
            ∷ []))
      else if nat_eq p 5
      then some (numbers (4 ∷ []))
      else none;
}

pub memory-IsValidHeap : IsValidHeap memory
memory-IsValidHeap p x e = ground arith

-- What the pointer 0 leads to.
abbrev pub value_in_memory : RuleValue
value_in_memory = record {
  type_meta = record { kind = "NodeReadinessRule"; api_version = "v1alpha1" };
  rule = record network_rule {
    finalizers = [];
    spec = record network_spec { enforcement_mode = "continuous" };
    status = record {
      observed_generation = 2;
      applied_nodes = "worker-1" ∷ [];
      failed_nodes = [];
      node_evaluations =
          record {
            node_name = "worker-1";
            condition_results =
                record {
                  cond_type = "NetworkReady";
                  current_status = "False";
                  required_status = "True";
                  satisfied = false;
                  missing = false;
                }
                ∷ [];
            taint_status = some present;
            last_evaluation_time = 7;
          }
          ∷ [];
      dry_run_results = record {
        affected_nodes = some 4;
        taints_to_add = none;
        taints_to_remove = none;
        risky_operations = none;
        summary = "";
      };
    };
  };
}
