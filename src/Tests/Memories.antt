-- ===== src/Tests/Memories.antt =====
-- The theorems on copies and on the rule cache in memory, at a memory with one rule.
use node_readiness_controlle.Prelude.{
  Bool-cases, Option, String, [], arith, eq_iff, false, if◌then◌else◌, inl, inr, nat_eq, none, refl,
  some, sym, ◌==◌, ◌∷◌, ◌≡◌, ◌≢◌,
}
use node_readiness_controlle.Api.{NodeReadinessRule, present}
use node_readiness_controlle.Memory.Copies.Copied.{IsCopied}
use node_readiness_controlle.Memory.Heap.{Heap, allocate, load, load_array}
use node_readiness_controlle.Memory.Heap.Deep.{IsValidHeap}
use node_readiness_controlle.Memory.Objects.{
  Cell, RuleObject, evaluations, numbers, requirements, results, rules, texts,
}
use node_readiness_controlle.Memory.Objects.Kinds.{rule_kind}
use node_readiness_controlle.Memory.RuleCache.{
  PointerController, get_applicable_pointers, get_cached_pointer, load_name, new_pointer_controller,
  update_pointer_cache,
}
use node_readiness_controlle.Memory.RuleCache.History.{
  History, History-Views, mutated, started, updated,
}
use node_readiness_controlle.Memory.RuleCache.Refinement.{IsGot, get_cached_pointer-IsGot}
use node_readiness_controlle.Memory.RuleCache.Shared.{
  IsOrder, IsShared, get_applicable_pointers-IsShared,
}
use node_readiness_controlle.Memory.RuleCache.Views.{
  Agrees, Holds, Owners, Views, between, give, own_nothing,
}
use node_readiness_controlle.Memory.Rules.{
  deep_copy_object_rule, deep_copy_rule, object_of, rule_copier, rule_pointer,
}
use node_readiness_controlle.Memory.Rules.Types.{deep_copy_of_lem, node_readiness_rule}
use node_readiness_controlle.RuleController.Cache.{
  Controller, get_cached_rule, new_readiness_gate_controller, update_rule_cache,
}
use node_readiness_controlle.Tests.Sample.{network_spec, ready_node, sample}
use node_readiness_controlle.Tests.SampleMemory.{
  flat, flat-IsLibrary, flat_types, memory, memory-IsValidHeap, rule_in_memory, value_in_memory,
}

deep_copy_of_lem_example :
    (copied : IsCopied
      (rule_kind flat_types)
      (rule_copier flat)
      (some 0)
      (some value_in_memory)
      memory
      (deep_copy_rule flat (some 0) memory))
    × (deep_copy_object_rule flat (some 0) memory
        ≡ some (object_of flat rule_pointer copied.copy, copied.after))
deep_copy_of_lem_example =
    deep_copy_of_lem flat flat-IsLibrary node_readiness_rule (some 0) (some value_in_memory) memory
      memory-IsValidHeap refl

-- What a run gives, and where it faults what the caller had.
abbrev gives :
    {A : Type 0}
    → Option (A × Heap (Cell flat_types))
    → A
    → Heap (Cell flat_types)
    → A × Heap (Cell flat_types)
gives none a h = (a, h)
gives (some out) a h = out

-- The cache with a copy of that rule.
abbrev stored : PointerController × Heap (Cell flat_types)
stored =
    gives (update_pointer_cache flat (some 0) new_pointer_controller memory) new_pointer_controller
      memory

stored_rule : update_pointer_cache flat (some 0) new_pointer_controller memory ≡ some stored
unfolding update_pointer_cache deep_copy_rule load load_array allocate load_name
stored_rule = refl

abbrev values : Controller
values = update_rule_cache value_in_memory.rule new_readiness_gate_controller

abbrev stored_owners : Owners
stored_owners = give "network" (between 6 stored.1.next) own_nothing

stored-History : History flat stored_owners stored.1 stored.0 values
stored-History =
    updated (started memory memory-IsValidHeap) (some 0) value_in_memory stored.0 stored.1 refl
      stored_rule

get_cached_pointer-IsGot_example :
    IsGot flat stored.1
      (get_cached_pointer flat "network" stored.0 stored.1)
      (get_cached_rule "network" values)
get_cached_pointer-IsGot_example =
    get_cached_pointer-IsGot flat flat-IsLibrary stored_owners stored.1 stored.0 values "network"
      (History-Views flat flat-IsLibrary stored-History)

any-IsOrder : IsOrder (λ m. m)
any-IsOrder m e = (λ r. r, λ r. r)

get_applicable_pointers-IsShared_example :
    IsShared sample stored.1 stored.0 values ready_node
      (get_applicable_pointers sample flat (λ m. m) ready_node stored.0 stored.1)
get_applicable_pointers-IsShared_example =
    get_applicable_pointers-IsShared sample flat stored_owners stored.1 stored.0 values
      (History-Views flat flat-IsLibrary stored-History) (λ m. m) any-IsOrder ready_node

-- The cached rule at 11 after a write of its observed generation.
abbrev observed_object : RuleObject flat_types
observed_object = record rule_in_memory {
  spec = record (rule_in_memory.spec) { conditions = some 6 };
  status = record (rule_in_memory.status) {
    observed_generation = 3;
    applied_nodes = some 7;
    node_evaluations = some 9;
    dry_run_results = record (rule_in_memory.status.dry_run_results) { affected_nodes = some 10 };
  };
}

abbrev observed_rule : NodeReadinessRule
observed_rule = record (value_in_memory.rule) {
  status = record (value_in_memory.rule.status) { observed_generation = 3 };
}

abbrev rewritten : Heap (Cell flat_types)
rewritten = record {
  next = 12;
  cell = λ p. if nat_eq p 11 then some (rules (observed_object ∷ [])) else stored.1.cell p;
}

stored_next : stored.1.next ≡ 12
unfolding update_pointer_cache deep_copy_rule load load_array allocate load_name
stored_next = refl

rewritten-IsValidHeap : IsValidHeap rewritten
rewritten-IsValidHeap p x e =
    grind (arith, stored_next, (History-Views flat flat-IsLibrary stored-History).valid p x)

observed_held : Holds flat (between 6 12) rewritten (some 11) observed_rule
unfolding update_pointer_cache deep_copy_rule load load_array allocate load_name
observed_held k a =
    rw
      (
        a 11 (rules (observed_object ∷ [])) refl refl,
        a 6 (requirements network_spec.conditions) refl refl,
        a 7 (texts ("worker-1" ∷ [])) refl refl,
        a 9
            (evaluations (
              record {
                node_name = "worker-1";
                condition_results = some 8;
                taint_status = some present;
                last_evaluation_time = 7;
              }
              ∷ []))
            refl refl,
        a 8
            (results (
              record {
                cond_type = "NetworkReady";
                current_status = "False";
                required_status = "True";
                satisfied = false;
                missing = false;
              }
              ∷ []))
            refl refl,
        a 10 (numbers (4 ∷ [])) refl refl,
      )
      refl

apart_from_rule : (n : String) → n ≢ "network" → Agrees flat (stored_owners n) stored.1 rewritten
apart_from_rule n d q x o e = elim (Bool-cases ("network" == n)) [
  | inl same ↦ absurd (d (sym ((eq_iff "network" n).0 same)))
  | inr other ↦ absurd (ground (arith, other, o))
]

rewritten-History :
    History flat
      (give "network" (between 6 12) stored_owners)
      rewritten
      stored.0
      (update_rule_cache observed_rule values)
unfolding update_pointer_cache deep_copy_rule load load_array allocate load_name
rewritten-History =
    mutated stored-History (some 11) observed_rule (between 6 12) rewritten refl
      rewritten-IsValidHeap (omega arith) apart_from_rule (λ q o. inl o) observed_held

History-Views_example :
    Views flat
      (give "network" (between 6 12) stored_owners)
      rewritten
      stored.0
      (update_rule_cache observed_rule values)
History-Views_example = History-Views flat flat-IsLibrary rewritten-History
