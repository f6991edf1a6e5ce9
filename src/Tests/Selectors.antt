-- ===== src/Tests/Selectors.antt =====
-- The theorems on the comparison of selectors, at two selectors of workers.
use node_readiness_controlle.Prelude.{String, [], arith, eq_iff, false, lookup, refl, ◌↔◌, ◌∷◌, ◌≡◌}
use node_readiness_controlle.Api.{LabelSelector, LabelSelectorRequirement}
use node_readiness_controlle.Prelude.Format.{concat, show_texts}
use node_readiness_controlle.RuleController.Selector.{expression_key, node_selector_changed}
use node_readiness_controlle.RuleController.Selector.Laws.{has_expression}
use node_readiness_controlle.RuleController.Selector.Unchanged.{node_selector_same_iff}

abbrev zone_in : LabelSelectorRequirement
zone_in = record { key = "zone"; operator = "In"; values = "a" ∷ [] }

abbrev arch_exists : LabelSelectorRequirement
arch_exists = record { key = "arch"; operator = "Exists"; values = [] }

-- Two requirements on the workers, in one order and in the other.
abbrev workers_by_zone : LabelSelector
workers_by_zone = record {
  match_labels = ("role", "worker") ∷ [];
  match_expressions = zone_in ∷ arch_exists ∷ [];
}

abbrev workers_by_arch : LabelSelector
workers_by_arch = record {
  match_labels = ("role", "worker") ∷ [];
  match_expressions = arch_exists ∷ zone_in ∷ [];
}

node_selector_same_iff_example : (node_selector_changed workers_by_zone workers_by_arch ≡ false) ↔ (
    ((k : String) → lookup k workers_by_arch.match_labels ≡ lookup k workers_by_zone.match_labels)
    × ((k : String)
        → has_expression k workers_by_arch.match_expressions
          ≡ has_expression k workers_by_zone.match_expressions))
unfolding expression_key concat show_texts
node_selector_same_iff_example =
    node_selector_same_iff workers_by_zone workers_by_arch (refl, tt) (refl, tt)
      ((λ e. ground (arith, eq_iff "worker" "")), tt) (refl, (refl, tt)) (refl, (refl, tt))
