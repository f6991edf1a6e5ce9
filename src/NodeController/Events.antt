-- ===== src/NodeController/Events.antt =====
-- The update events that the node reconciler lets through: conditionsEqual, taintsEqual,
-- labelsEqual and the UpdateFunc of SetupWithManager.
pub mod Laws
use Prim.Native.String.{◌++◌ as str_append}
use node_readiness_controlle.Prelude.{
  String, Bool, true, false, not, ◌||◌, List, [], ◌∷◌, Option, none, some, ◌!=◌, StringMap, lookup,
  insert, length, nat_eq, if◌then◌else◌,
}
use node_readiness_controlle.Api.{Taint, NodeCondition, Node}
use node_readiness_controlle.RuleController.Selector.{values_match}

-- The loop that fills the map of the conditions.
unfoldable pub condition_map : List NodeCondition → StringMap String → StringMap String
condition_map [] m = m
condition_map (cond ∷ rest) m = condition_map rest (insert cond.cond_type cond.status m)

-- `status, exists := aMap[t]; !exists || status != s`
abbrev pub status_differs : Option String → String → Bool
status_differs none s = true
status_differs (some status) s = status != s

unfoldable pub conditions_match : StringMap String → List NodeCondition → Bool
conditions_match m [] = true
conditions_match m (cond ∷ rest) =
    if status_differs (lookup cond.cond_type m) cond.status then false else conditions_match m rest

unfoldable pub conditions_equal : List NodeCondition → List NodeCondition → Bool
conditions_equal a b =
    if not (nat_eq (length a) (length b)) then false else conditions_match (condition_map a []) b

-- The key under which taintsEqual files a taint: its key and its effect, with nothing between.
unfoldable pub taint_map_key : Taint → String
taint_map_key taint = str_append taint.key taint.effect

unfoldable pub taint_map : List Taint → StringMap Taint → StringMap Taint
taint_map [] m = m
taint_map (taint ∷ rest) m = taint_map rest (insert (taint_map_key taint) taint m)

abbrev pub taint_differs : Option Taint → Taint → Bool
taint_differs none taint = true
taint_differs (some old_taint) taint = old_taint.value != taint.value

unfoldable pub taints_match : StringMap Taint → List Taint → Bool
taints_match m [] = true
taints_match m (taint ∷ rest) =
    if taint_differs (lookup (taint_map_key taint) m) taint then false else taints_match m rest

unfoldable pub taints_equal : List Taint → List Taint → Bool
taints_equal a b =
    if not (nat_eq (length a) (length b)) then false else taints_match (taint_map a []) b

unfoldable pub labels_equal : StringMap String → StringMap String → Bool
labels_equal a b = if not (nat_eq (length a) (length b)) then false else values_match a b

-- The UpdateFunc of the predicate.
unfoldable pub should_reconcile : Node → Node → Bool
should_reconcile old_node new_node =
    not (conditions_equal old_node.conditions new_node.conditions)
    || not (taints_equal old_node.taints new_node.taints)
    || not (labels_equal old_node.labels new_node.labels)
