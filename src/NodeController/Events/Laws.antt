-- ===== src/NodeController/Events/Laws.antt =====
-- About the update predicate and its comparisons: conditionsEqual, taintsEqual and labelsEqual.
use Prim.Native.String.{◌++◌ as str_append}
use text.Mathlib.TextLemmas.{append_assoc}
use node_readiness_controlle.Prelude.{
  eq_refl, String, true, false, List, [], ◌∷◌, map, Option, none, some, ◌≡◌, ◌↔◌, refl, arith,
  eq_iff, StringMap, lookup, insert, IsMap, Covers, same_map_iff, lookup-insert, length,
}
use node_readiness_controlle.Api.{NodeCondition, Node, condition_unknown}
use node_readiness_controlle.NodeController.Conditions.{status_in, get_condition_status}
use node_readiness_controlle.NodeController.Events.{
  condition_map, status_differs, conditions_match, conditions_equal, taint_map, taint_map_key,
  taints_match, taints_equal, labels_equal, should_reconcile,
}
use node_readiness_controlle.RuleController.Selector.{string_map_equal}
use node_readiness_controlle.RuleController.Selector.Laws.{HasNoEmptyValue, string_map_equal_iff}

-- The statuses by type.
abbrev pub condition_pairs : List NodeCondition → StringMap String
condition_pairs = map (λ cond. (cond.cond_type, cond.status))

length-condition_pairs : (l : List NodeCondition) → length (condition_pairs l) ≡ length l
length-condition_pairs [] = refl
length-condition_pairs (x ∷ l) = omega (arith, length-condition_pairs l)

lookup-condition_map :
    (a : List NodeCondition) (m : StringMap String) (t : String)
    → IsMap (condition_pairs a)
    → lookup t (condition_map a m)
      ≡ elim (lookup t (condition_pairs a)) [ none ↦ lookup t m | some s ↦ some s ]
unfolding condition_map
lookup-condition_map [] m t h = refl
lookup-condition_map (x ∷ a) m t h = ground (
  arith,
  eq_iff x.cond_type t,
  lookup-insert x.cond_type t x.status m,
  lookup-condition_map a (insert x.cond_type x.status m) t h.1,
)

lookup-condition_map_empty :
    (a : List NodeCondition) (t : String)
    → IsMap (condition_pairs a)
    → lookup t (condition_map a []) ≡ lookup t (condition_pairs a)
lookup-condition_map_empty a t h = ground (arith, lookup-condition_map a [] t h)

status_differs_iff : (o : Option String) (s : String) → (status_differs o s ≡ false) ↔ (o ≡ some s)
status_differs_iff none s = (λ h. cc, λ h. cc)
status_differs_iff (some status) s =
    (λ h. ground (arith, eq_iff status s), λ h. ground (arith, eq_iff status s))

conditions_match_iff :
    (a : List NodeCondition) (b : List NodeCondition)
    → IsMap (condition_pairs a)
    → (conditions_match (condition_map a []) b ≡ true)
      ↔ Covers (condition_pairs a) (condition_pairs b)
unfolding conditions_match
conditions_match_iff a [] h = (λ m. tt, λ m. refl)
conditions_match_iff a (x ∷ b) h =
    let (to, from) = conditions_match_iff a b h in
    (
      λ m. ground (
        arith,
        lookup-condition_map_empty a x.cond_type h,
        status_differs_iff (lookup x.cond_type (condition_map a [])) x.status,
        to,
      ),
      λ cs.
          ground (
            arith,
            lookup-condition_map_empty a x.cond_type h,
            eq_iff x.status x.status,
            from cs.1,
          ),
    )

-- For lists with no condition type twice, the test of the conditions passes exactly when every
-- type has the same status, or none, in both.
pub conditions_equal_iff :
    (a b : List NodeCondition)
    → IsMap (condition_pairs a)
    → IsMap (condition_pairs b)
    → (conditions_equal a b ≡ true)
      ↔ ((t : String) → lookup t (condition_pairs a) ≡ lookup t (condition_pairs b))
unfolding conditions_equal
conditions_equal_iff a b ha hb =
    let (to, from) = conditions_match_iff a b ha in
    let (same, back) = same_map_iff (condition_pairs a) (condition_pairs b) ha hb in
    let la = length-condition_pairs a in
    let lb = length-condition_pairs b in
    (λ h. same (ground arith, to (ground arith)), λ h. ground (arith, (back h).0, from (back h).1))

status_in-lookup :
    (l : List NodeCondition) (t : String)
    → status_in l t ≡ elim (lookup t (condition_pairs l)) [ none ↦ condition_unknown | some s ↦ s ]
unfolding status_in
status_in-lookup [] t = refl
status_in-lookup (x ∷ l) t = ground (arith, status_in-lookup l t)

-- Where no node has a condition type or a label key twice and no old label is empty: if the
-- update event is dropped, every condition and every label reads as before.
pub dropped_update :
    (old_node new_node : Node)
    → IsMap (condition_pairs old_node.conditions)
    → IsMap (condition_pairs new_node.conditions)
    → IsMap old_node.labels
    → IsMap new_node.labels
    → HasNoEmptyValue old_node.labels
    → should_reconcile old_node new_node ≡ false
    → ((t : String) → get_condition_status new_node t ≡ get_condition_status old_node t)
      × ((k : String) → lookup k new_node.labels ≡ lookup k old_node.labels)
unfolding should_reconcile labels_equal string_map_equal
dropped_update old_node new_node co cn lo ln full h =
    let same_conditions =
      (conditions_equal_iff old_node.conditions new_node.conditions co cn).0 (ground arith) in
    let same_labels =
      (string_map_equal_iff old_node.labels new_node.labels lo ln full).0 (ground arith) in
    (
      λ t. ground (
        arith,
        status_in-lookup old_node.conditions t,
        status_in-lookup new_node.conditions t,
        same_conditions t,
      ),
      same_labels,
    )

collision_key :
    (k : String) → str_append (str_append k "Prefer") "NoSchedule" ≡ str_append k "PreferNoSchedule"
collision_key k = append_assoc k "Prefer" "NoSchedule"

-- The test of the taints passes for two lists whose taints differ in key and effect: with
-- `Prefer` after the key and the effect `NoSchedule` in one, and without it and the effect
-- `PreferNoSchedule` in the other.
taints_equal_collision :
    (k v : String)
    → taints_equal
        (record { key = str_append k "Prefer"; value = v; effect = "NoSchedule" } ∷ [])
        (record { key = k; value = v; effect = "PreferNoSchedule" } ∷ [])
      ≡ true
unfolding taints_equal taint_map taint_map_key taints_match
taints_equal_collision k v =
    rw (collision_key k, eq_refl (str_append k "PreferNoSchedule"), eq_refl v)
