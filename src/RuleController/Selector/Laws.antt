-- ===== src/RuleController/Selector/Laws.antt =====
-- About stringMapEqual and nodeSelectorChanged.
use node_readiness_controlle.Prelude.{
  String, Option, Bool, true, false, not, List, [], ◌∷◌, none, some, ◌==◌, ◌≡◌, ◌≢◌, eq_refl, ◌↔◌,
  refl, arith, eq_iff, StringMap, lookup, insert, contains_key, IsMap, Covers, same_map_iff, length,
  any_of, All, ◌||◌, Covers-self, any_of-insert, lookup-insert, if◌then◌else◌,
}
use node_readiness_controlle.Api.{LabelSelectorRequirement, LabelSelector}
use node_readiness_controlle.RuleController.Selector.{
  value_at, values_match, string_map_equal, expression_key, expression_map, node_selector_changed,
}

-- No key has the empty text for its value.
abbrev pub HasNoEmptyValue : StringMap String → Type 0
HasNoEmptyValue = All (λ e. e.1 ≢ "")

values_match-Covers :
    (a b : StringMap String) → HasNoEmptyValue a → values_match a b ≡ true → Covers b a
unfolding values_match
values_match-Covers [] b h m = tt
values_match-Covers ((k, v) ∷ a) b h m =
    ground (arith, eq_iff (value_at k b) v, h.0, values_match-Covers a b h.1)

Covers-values_match : (a b : StringMap String) → Covers b a → values_match a b ≡ true
unfolding values_match
Covers-values_match [] b cs = refl
Covers-values_match ((k, v) ∷ a) b cs = ground (arith, eq_iff v v, Covers-values_match a b cs.1)

same_length : (a b : StringMap String) → string_map_equal a b ≡ true → length b ≡ length a
unfolding string_map_equal
same_length a b h = ground arith

-- For maps without a key twice, the first of which has no empty value, the test of the label maps
-- passes exactly when they read the same at every key.
pub string_map_equal_iff :
    (a b : StringMap String)
    → IsMap a
    → IsMap b
    → HasNoEmptyValue a
    → (string_map_equal a b ≡ true) ↔ ((k : String) → lookup k b ≡ lookup k a)
unfolding string_map_equal
string_map_equal_iff a b ha hb full = (
  λ h. (same_map_iff b a hb ha).0 (same_length a b h, values_match-Covers a b full (ground arith)),
  λ same.
      let (e, cs) = (same_map_iff b a hb ha).1 same in
      ground (arith, e, Covers-values_match a b cs),
)

value_or_empty :
    (b : Bool)
    → ◌≡◌ {A = String}
        (elim (if◌then◌else◌ {A = Option String} b (some "") none) [ none ↦ "" | some v ↦ v ])
        ""
value_or_empty true = refl
value_or_empty false = refl

-- Two maps of one entry each with the empty value pass the test whatever their keys are: a
-- missing key reads as the empty text.
string_map_equal_empty : (j k : String) → string_map_equal ((j, "") ∷ []) ((k, "") ∷ []) ≡ true
unfolding string_map_equal values_match
string_map_equal_empty j k = rw (value_or_empty (k == j))

pub string_map_equal_self : (a : StringMap String) → IsMap a → string_map_equal a a ≡ true
unfolding string_map_equal
string_map_equal_self a h = ground (arith, Covers-values_match a a (Covers-self a h))

-- An expression with this key stands in the list.
abbrev pub has_expression : String → List LabelSelectorRequirement → Bool
has_expression key = any_of (λ x. expression_key x == key)

contains_key-expression_map :
    (k : String) (l : List LabelSelectorRequirement) (m : StringMap LabelSelectorRequirement)
    → contains_key k (expression_map l m) ≡ (has_expression k l || contains_key k m)
unfolding expression_map
contains_key-expression_map k [] m = ground arith
contains_key-expression_map k (x ∷ l) m = ground (
  arith,
  contains_key-expression_map k l (insert (expression_key x) x m),
  lookup-insert (expression_key x) k x m,
)

any_of-expression_map :
    (q : String → Bool) (l : List LabelSelectorRequirement) (m : StringMap LabelSelectorRequirement)
    → any_of (λ e. q e.0) (expression_map l m)
      ≡ (any_of (λ x. q (expression_key x)) l || any_of (λ e. q e.0) m)
unfolding expression_map
any_of-expression_map q [] m = refl
any_of-expression_map q (x ∷ l) m = ground (
  arith,
  any_of-expression_map q l (insert (expression_key x) x m),
  any_of-insert q (expression_key x) x m,
)

any_of-All :
    (q : LabelSelectorRequirement → Bool) (l : List LabelSelectorRequirement)
    → (any_of (λ x. not (q x)) l ≡ false) ↔ All (λ x. q x ≡ true) l
any_of-All q [] = (λ h. tt, λ h. refl)
any_of-All q (x ∷ l) =
    let (to, from) = any_of-All q l in (λ h. ground (arith, to), λ h. ground (arith, from h.1))

expressions_found :
    (cur prev : List LabelSelectorRequirement)
    → any_of (λ e. not (contains_key e.0 (expression_map prev []))) (expression_map cur [])
      ≡ any_of (λ x. not (has_expression (expression_key x) prev)) cur
expressions_found cur prev = ground (
  arith,
  any_of-expression_map (λ k. not (contains_key k (expression_map prev []))) cur [],
  go cur,
)
  where
    go :
        (l : List LabelSelectorRequirement)
        → any_of (λ x. not (contains_key (expression_key x) (expression_map prev []))) l
          ≡ any_of (λ x. not (has_expression (expression_key x) prev)) l
    go [] = refl
    go (x ∷ l) = ground (arith, go l, contains_key-expression_map (expression_key x) prev [])

-- A selector counts as unchanged exactly when the label maps pass their test, there are as many
-- expressions as before, and the previous selector has each expression's key.
pub node_selector_unchanged_iff :
    (cur prev : LabelSelector)
    → (node_selector_changed cur prev ≡ false) ↔ (
        (string_map_equal cur.match_labels prev.match_labels ≡ true)
        × (length cur.match_expressions ≡ length prev.match_expressions)
        × All
            (λ x. has_expression (expression_key x) prev.match_expressions ≡ true)
            cur.match_expressions)
unfolding node_selector_changed
node_selector_unchanged_iff cur prev =
    let found = expressions_found cur.match_expressions prev.match_expressions in
    let (to, from) =
      any_of-All (λ x. has_expression (expression_key x) prev.match_expressions)
        cur.match_expressions in
    (λ h. ground (arith, found, to), λ h. ground (arith, found, from h.2))

-- With the same labels, a change from the expressions x and y to the expressions x and x is not
-- seen, whatever x and y are.
selector_change_missed :
    (labels : StringMap String) (x y : LabelSelectorRequirement)
    → IsMap labels
    → node_selector_changed
        (record { match_labels = labels; match_expressions = x ∷ x ∷ [] })
        (record { match_labels = labels; match_expressions = x ∷ y ∷ [] })
      ≡ false
selector_change_missed labels x y h = (node_selector_unchanged_iff _ _).1 (
  string_map_equal_self labels h,
  refl,
  (ground (arith, eq_refl (expression_key x)), (ground (arith, eq_refl (expression_key x)), tt)),
)
