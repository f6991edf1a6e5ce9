-- ===== src/RuleController/Selector/Unchanged.antt =====
-- About nodeSelectorChanged on selectors that repeat no expression: what it sees.
use node_readiness_controlle.Prelude.{
  String, Bool, true, false, List, [], ◌∷◌, none, some, ◌≡◌, ◌↔◌, refl, arith, StringMap, lookup,
  IsMap, Covers, same_map_iff, length, All, if◌then◌else◌,
}
use node_readiness_controlle.Api.{LabelSelectorRequirement, LabelSelector}
use node_readiness_controlle.RuleController.Selector.{expression_key, node_selector_changed}
use node_readiness_controlle.RuleController.Selector.Laws.{
  HasNoEmptyValue, string_map_equal_iff, has_expression, node_selector_unchanged_iff,
}

-- No two expressions have the same key.
abbrev pub HasDistinctKeys : List LabelSelectorRequirement → Type 0
HasDistinctKeys [] = Unit
HasDistinctKeys (x ∷ l) = (has_expression (expression_key x) l ≡ false) × HasDistinctKeys l

-- The keys as a map.
abbrev keyed : List LabelSelectorRequirement → StringMap Bool
keyed [] = []
keyed (x ∷ l) = (expression_key x, true) ∷ keyed l

lookup-keyed :
    (k : String) (l : List LabelSelectorRequirement)
    → lookup k (keyed l) ≡ (if has_expression k l then some true else none)
lookup-keyed k [] = refl
lookup-keyed k (x ∷ l) = ground (arith, lookup-keyed k l)

keyed-IsMap : (l : List LabelSelectorRequirement) → HasDistinctKeys l → IsMap (keyed l)
keyed-IsMap [] h = tt
keyed-IsMap (x ∷ l) h = (ground (arith, lookup-keyed (expression_key x) l, h.0), keyed-IsMap l h.1)

length-keyed : (l : List LabelSelectorRequirement) → length (keyed l) ≡ length l
length-keyed [] = refl
length-keyed (x ∷ l) = omega (arith, length-keyed l)

-- The map of `cur` is covered where each of its keys is found.
keyed-Covers :
    (cur prev : List LabelSelectorRequirement)
    → All (λ x. has_expression (expression_key x) prev ≡ true) cur ↔ Covers (keyed prev) (keyed cur)
keyed-Covers [] prev = (λ h. tt, λ h. tt)
keyed-Covers (x ∷ cur) prev =
    let (to, from) = keyed-Covers cur prev in
    (
      λ h. (ground (arith, lookup-keyed (expression_key x) prev, h.0), to h.1),
      λ h. (ground (arith, lookup-keyed (expression_key x) prev, h.0), from h.1),
    )

same_keyed :
    (cur prev : List LabelSelectorRequirement) (k : String)
    → (lookup k (keyed prev) ≡ lookup k (keyed cur))
      ↔ (has_expression k prev ≡ has_expression k cur)
same_keyed cur prev k = (
  λ h. ground (arith, h, lookup-keyed k prev, lookup-keyed k cur),
  λ h. ground (arith, h, lookup-keyed k prev, lookup-keyed k cur),
)

same_expressions_iff :
    (cur prev : List LabelSelectorRequirement)
    → HasDistinctKeys cur
    → HasDistinctKeys prev
    → ((length cur ≡ length prev) × All (λ x. has_expression (expression_key x) prev ≡ true) cur)
      ↔ ((k : String) → has_expression k prev ≡ has_expression k cur)
same_expressions_iff cur prev dc dp =
    let (to, from) =
      same_map_iff (keyed prev) (keyed cur) (keyed-IsMap prev dp) (keyed-IsMap cur dc) in
    (
      λ h k. (same_keyed cur prev k).0 (
          to
            (omega (arith, h.0, length-keyed cur, length-keyed prev), (keyed-Covers cur prev).0 h.1)
            k),
      λ h.
          let both = from (λ k. (same_keyed cur prev k).1 (h k)) in
          (
            omega (arith, both.0, length-keyed cur, length-keyed prev),
            (keyed-Covers cur prev).1 both.1,
          ),
    )

-- For two selectors that have no label key and no expression twice, the first of which has no
-- label with an empty value: the selector counts as unchanged exactly when the labels read the
-- same at every key and the same texts of expressions stand in both, whatever their order.
pub node_selector_same_iff :
    (cur prev : LabelSelector)
    → IsMap cur.match_labels
    → IsMap prev.match_labels
    → HasNoEmptyValue cur.match_labels
    → HasDistinctKeys cur.match_expressions
    → HasDistinctKeys prev.match_expressions
    → (node_selector_changed cur prev ≡ false) ↔ (
        ((k : String) → lookup k prev.match_labels ≡ lookup k cur.match_labels)
        × ((k : String)
            → has_expression k prev.match_expressions ≡ has_expression k cur.match_expressions))
node_selector_same_iff cur prev mc mp full dc dp =
    let (to, from) = node_selector_unchanged_iff cur prev in
    let labels = string_map_equal_iff cur.match_labels prev.match_labels mc mp full in
    let expressions = same_expressions_iff cur.match_expressions prev.match_expressions dc dp in
    (
      λ h. let all = to h in (labels.0 all.0, expressions.0 (all.1, all.2)),
      λ h. let found = expressions.1 h.1 in from (labels.1 h.0, found.0, found.1),
    )
