-- ===== src/RuleController/Cache.antt =====
-- The controller's own state: the rule cache and the global dry run switch. The copies that
-- DeepCopy makes are the values themselves here; Memory/RuleCache has them with their pointers.
pub mod Laws
pub mod Applicable
use node_readiness_controlle.Prelude.{
  String, Bool, false, List, [], Option, StringMap, lookup, insert, delete, keep_if, map,
}
use node_readiness_controlle.Api.{Node, NodeReadinessRule}
use node_readiness_controlle.Platform.{Result, ok, err, Client}

-- The fields of ReadinessGateController that change: ruleCache and globalDryRun.
pub record Controller : Type 0 where
  pub rule_cache : StringMap NodeReadinessRule
  pub global_dry_run : Bool

abbrev pub new_readiness_gate_controller : Controller
new_readiness_gate_controller = record { rule_cache = []; global_dry_run = false }

unfoldable pub update_rule_cache : NodeReadinessRule → Controller → Controller
update_rule_cache rule r = record r { rule_cache = insert rule.name rule r.rule_cache }

unfoldable pub get_cached_rule : String → Controller → Option NodeReadinessRule
get_cached_rule rule_name r = lookup rule_name r.rule_cache

unfoldable pub remove_rule_from_cache : String → Controller → Controller
remove_rule_from_cache rule_name r = record r { rule_cache = delete rule_name r.rule_cache }

unfoldable pub set_global_dry_run : Bool → Controller → Controller
set_global_dry_run dry_run r = record r { global_dry_run = dry_run }

module _ {W S : Type 0} (c : Client W S) where
  abbrev pub selector_matches : Result S → Node → Bool
  selector_matches (ok selector) node = c.matches selector node.labels
  selector_matches (err e) node = false

  unfoldable pub rule_applies_to : NodeReadinessRule → Node → Bool
  rule_applies_to rule node = selector_matches (c.as_selector rule.spec.node_selector) node

  -- The rules of the cache that apply, in the order of the `range`.
  unfoldable pub get_applicable_rules_for_node : Node → Controller → W → List NodeReadinessRule
  get_applicable_rules_for_node node r w =
      keep_if (λ rule. rule_applies_to rule node) (map (λ e. e.1) (c.range_order w r.rule_cache))
