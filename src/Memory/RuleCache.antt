-- ===== src/Memory/RuleCache.antt =====
-- internal/controller/nodereadinessrule_controller.go: the rule cache as it lies in memory, a map
-- to pointers, with the copies that its functions make.
pub mod Views
pub mod Entries
pub mod Refinement
pub mod History
pub mod Shared
use node_readiness_controlle.Prelude.{
  ℕ, String, Bool, false, List, [], ◌∷◌, if◌then◌else◌, Option, none, some, StringMap, lookup,
  insert, delete,
}
use node_readiness_controlle.Api.{Node, NodeReadinessRule}
use node_readiness_controlle.Platform.{Client}
use node_readiness_controlle.RuleController.Cache.{rule_applies_to}
use node_readiness_controlle.Memory.Heap.{Heap, Program, and_then, pure, ◌>>=◌, returned, load}
use node_readiness_controlle.Memory.Copies.{read_pointer}
use node_readiness_controlle.Memory.Objects.{LibraryTypes, Cell, RuleObject, Library}
use node_readiness_controlle.Memory.Objects.Kinds.{rule_kind}
use node_readiness_controlle.Memory.Rules.{rule_copier, deep_copy_rule}

-- ReadinessGateController, with the map from names to pointers.
pub record PointerController : Type 0 where
  pub rule_cache : StringMap (Option ℕ)
  pub global_dry_run : Bool

abbrev pub new_pointer_controller : PointerController
new_pointer_controller = record { rule_cache = []; global_dry_run = false }

module _ {T : LibraryTypes} (lib : Library T) where
  -- The rule that a pointer leads to: a nil pointer leads to none.
  abbrev pub read_rule : Heap (Cell T) → Option ℕ → Option NodeReadinessRule
  read_rule h p =
      and_then (read_pointer (rule_kind T) (rule_copier lib) h p)
        (λ o. and_then o (λ v. some v.rule))

  -- `rule.Name`: a fault at a nil pointer.
  abbrev pub object_name : RuleObject T → Program (Cell T) String
  object_name object h =
      returned h (and_then (lib.object_meta.read h object.object_meta) (λ m. some m.name))

  unfoldable pub load_name : Option ℕ → Program (Cell T) String
  load_name none h = none
  load_name (some p) h = (load (rule_kind T) p >>= object_name) h

  -- updateRuleCache
  unfoldable pub update_pointer_cache :
      Option ℕ → PointerController → Program (Cell T) PointerController
  update_pointer_cache rule r = do
    rule_copy ← deep_copy_rule lib rule
    name ← load_name rule
    pure (record r { rule_cache = insert name rule_copy r.rule_cache })

  abbrev pub copy_found : Option (Option ℕ) → Program (Cell T) (Option ℕ)
  copy_found none = pure none
  copy_found (some rule) = deep_copy_rule lib rule

  -- getCachedRule
  unfoldable pub get_cached_pointer : String → PointerController → Program (Cell T) (Option ℕ)
  get_cached_pointer rule_name r = copy_found (lookup rule_name r.rule_cache)

-- removeRuleFromCache
unfoldable pub remove_pointer : String → PointerController → PointerController
remove_pointer rule_name r = record r { rule_cache = delete rule_name r.rule_cache }

module _ {W S : Type 0} (c : Client W S) {T : LibraryTypes} (lib : Library T) where
  -- What ruleAppliesTo reads: a fault at a nil pointer.
  abbrev pub load_rule : Option ℕ → Program (Cell T) NodeReadinessRule
  load_rule rule h = returned h (read_rule lib h rule)

  -- The loop of getApplicableRulesForNode, over the entries in the order of the `range`.
  unfoldable pub applicable_pointers :
      Node → StringMap (Option ℕ) → Program (Cell T) (List (Option ℕ))
  applicable_pointers node [] = pure []
  applicable_pointers node ((name, rule) ∷ rest) = do
    loaded ← load_rule rule
    others ← applicable_pointers node rest
    pure (if rule_applies_to c loaded node then rule ∷ others else others)

  -- getApplicableRulesForNode
  unfoldable pub get_applicable_pointers :
      (StringMap (Option ℕ) → StringMap (Option ℕ))
      → Node
      → PointerController
      → Program (Cell T) (List (Option ℕ))
  get_applicable_pointers range_order node r = applicable_pointers node (range_order r.rule_cache)
