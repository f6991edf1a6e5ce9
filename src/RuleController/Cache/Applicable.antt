-- ===== src/RuleController/Cache/Applicable.antt =====
-- The rules that are applied to a node: getApplicableRulesForNode of
-- internal/controller/nodereadinessrule_controller.go.
use node_readiness_controlle.Prelude.{
  String, Bool, true, List, [], ◌∷◌, some, ◌==◌, ◌≡◌, ◌↔◌, refl, ap, arith, eq_iff, subst, sym, ◌∙◌,
  map, keep_if, StringMap, lookup, IsMap, All-IsIn, IsIn, at_head, in_tail, Bool-cases, inl, inr,
}
use node_readiness_controlle.Api.{Node, NodeReadinessRule}
use node_readiness_controlle.Platform.{Client}
use node_readiness_controlle.Platform.Laws.{RangeLaw}
use node_readiness_controlle.RuleController.Cache.{
  Controller, get_cached_rule, rule_applies_to, get_applicable_rules_for_node,
}
use node_readiness_controlle.RuleController.Cache.Laws.{IsValid}

keep_if-IsIn :
    {A : Type 0} (p : A → Bool) (a : A) (l : List A) → IsIn a l → p a ≡ true → IsIn a (keep_if p l)
keep_if-IsIn p a [] r h = elim r [ ]
keep_if-IsIn p a (x ∷ l) (at_head e) h = rw (← e, h) (at_head refl)
keep_if-IsIn p a (x ∷ l) (in_tail r) h = elim (Bool-cases (p x)) [
  | inl t ↦ rw t (in_tail (keep_if-IsIn p a l r h))
  | inr f ↦ rw f (keep_if-IsIn p a l r h)
]

kept_head :
    {A : Type 0} (p : A → Bool) (a x : A) (l kept : List A)
    → p x ≡ true
    → (IsIn a kept → IsIn a l × (p a ≡ true))
    → IsIn a (x ∷ kept)
    → IsIn a (x ∷ l) × (p a ≡ true)
kept_head p a x l kept t tail (at_head e) = (at_head e, ap p e ∙ t)
kept_head p a x l kept t tail (in_tail r) = let (there, holds) = tail r in (in_tail there, holds)

IsIn-keep_if :
    {A : Type 0} (p : A → Bool) (a : A) (l : List A)
    → IsIn a (keep_if p l)
    → IsIn a l × (p a ≡ true)
IsIn-keep_if p a [] r = elim r [ ]
IsIn-keep_if p a (x ∷ l) r = elim (Bool-cases (p x)) [
  | inl t ↦ kept_head p a x l (keep_if p l) t (IsIn-keep_if p a l) (rw t at r)
  | inr f ↦ let (there, holds) = IsIn-keep_if p a l (rw f at r) in (in_tail there, holds)
]

map-IsIn :
    (rule : NodeReadinessRule) (k : String) (m : StringMap NodeReadinessRule)
    → IsIn (k, rule) m
    → IsIn rule (map (λ e. e.1) m)
map-IsIn rule k [] r = elim r [ ]
map-IsIn rule k (x ∷ m) (at_head e) = at_head (ap (λ e. e.1) e)
map-IsIn rule k (x ∷ m) (in_tail r) = in_tail (map-IsIn rule k m r)

IsIn-map :
    (rule : NodeReadinessRule) (m : StringMap NodeReadinessRule)
    → IsIn rule (map (λ e. e.1) m)
    → (k : String) × IsIn (k, rule) m
IsIn-map rule [] r = elim r [ ]
IsIn-map rule ((k, x) ∷ m) (at_head e) = (k, at_head (ap (λ v. (k, v)) e))
IsIn-map rule (x ∷ m) (in_tail r) = let (k, there) = IsIn-map rule m r in (k, in_tail there)

pub lookup-IsIn :
    {V : Type 0} (k : String) (rule : V) (m : StringMap V)
    → lookup k m ≡ some rule
    → IsIn (k, rule) m
lookup-IsIn k rule [] h = absurd (cc h)
lookup-IsIn k rule ((j, x) ∷ m) h = elim (Bool-cases (j == k)) [
  | inl same ↦ at_head (ground (arith, eq_iff j k))
  | inr apart ↦ in_tail (lookup-IsIn k rule m (ground arith))
]

pub IsIn-lookup :
    {V : Type 0} (k : String) (rule : V) (m : StringMap V)
    → IsMap m
    → IsIn (k, rule) m
    → lookup k m ≡ some rule
IsIn-lookup k rule [] h r = elim r [ ]
IsIn-lookup k rule ((j, x) ∷ m) h (at_head e) =
    ground (arith, ap (λ e. e.0) e, ap (λ e. e.1) e, eq_iff j k)
IsIn-lookup k rule ((j, x) ∷ m) h (in_tail r) =
    ground (arith, IsIn-lookup k rule m h.1 r, eq_iff j k)

-- Where a range over a map meets exactly its entries, in whatever order, and the cache is a map
-- whose keys are the names of its rules: a rule is among those applied to a node exactly when it
-- is the one cached under its name and its selector matches the node.
pub get_applicable_rules_iff :
    {W S : Type 0} (c : Client W S)
    → RangeLaw c
    → (rule : NodeReadinessRule) (node : Node) (r : Controller) (w : W) → IsValid r
    → IsIn rule (get_applicable_rules_for_node c node r w)
      ↔ ((get_cached_rule rule.name r ≡ some rule) × (rule_applies_to c rule node ≡ true))
unfolding get_applicable_rules_for_node get_cached_rule
get_applicable_rules_iff c range rule node r w valid = (
  λ h.
      let (listed, applies) = IsIn-keep_if (λ x. rule_applies_to c x node) rule _ h in
      let (k, there) = IsIn-map rule _ listed in
      let cached = (range w r.rule_cache (k, rule)).0 there in
      let named = All-IsIn (λ e. e.1.name ≡ e.0) _ valid.is_named cached in
      (
        subst (λ n. lookup n r.rule_cache ≡ some rule) (sym named)
            (IsIn-lookup k rule _ valid.is_map cached),
        applies,
      ),
  λ h.
      keep_if-IsIn (λ x. rule_applies_to c x node) rule _
        (map-IsIn rule rule.name _ (
          (range w r.rule_cache (rule.name, rule)).1 (lookup-IsIn rule.name rule r.rule_cache h.0)))
        h.1,
)
