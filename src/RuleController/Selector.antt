-- ===== src/RuleController/Selector.antt =====
-- The comparison of selectors: stringMapEqual and nodeSelectorChanged.
pub mod Laws
pub mod Unchanged
use node_readiness_controlle.Prelude.{
  String, Bool, true, false, not, List, [], ◌∷◌, none, some, ◌!=◌, StringMap, lookup, insert,
  contains_key, length, any_of, nat_eq, if◌then◌else◌,
}
use node_readiness_controlle.Prelude.Format.{concat, show_texts}
use node_readiness_controlle.Api.{LabelSelectorRequirement, LabelSelector}

-- `m[k]`: the empty text where the key is missing.
abbrev pub value_at : String → StringMap String → String
value_at k m = elim (lookup k m) [ none ↦ "" | some v ↦ v ]

-- The loop of stringMapEqual and of labelsEqual.
unfoldable pub values_match : StringMap String → StringMap String → Bool
values_match [] b = true
values_match ((k, v) ∷ a) b = if value_at k b != v then false else values_match a b

unfoldable pub string_map_equal : StringMap String → StringMap String → Bool
string_map_equal a b = if not (nat_eq (length a) (length b)) then false else values_match a b

unfoldable pub expression_key : LabelSelectorRequirement → String
expression_key expr = concat (expr.key ∷ "-" ∷ expr.operator ∷ "-" ∷ show_texts expr.values ∷ [])

-- The loop that fills currentExprs and previousExprs.
unfoldable pub expression_map :
    List LabelSelectorRequirement
    → StringMap LabelSelectorRequirement
    → StringMap LabelSelectorRequirement
expression_map [] m = m
expression_map (expr ∷ rest) m = expression_map rest (insert (expression_key expr) expr m)

unfoldable pub node_selector_changed : LabelSelector → LabelSelector → Bool
node_selector_changed current previous =
    if not (string_map_equal current.match_labels previous.match_labels)
    then true
    else if not (nat_eq (length current.match_expressions) (length previous.match_expressions))
    then true
    else any_of (λ e. not (contains_key e.0 (expression_map previous.match_expressions [])))
        (expression_map current.match_expressions [])
