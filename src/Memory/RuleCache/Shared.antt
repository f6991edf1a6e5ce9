-- ===== src/Memory/RuleCache/Shared.antt =====
-- About getApplicableRulesForNode on the cache in memory: the pointers that it gives out.
use node_readiness_controlle.Prelude.{
  ℕ, String, Bool, true, false, List, [], ◌∷◌, Option, none, some, ◌≡◌, ◌↔◌, refl, ap, subst, ◌∙◌,
  StringMap, lookup, IsIn, at_head, in_tail, if◌then◌else◌,
}
use node_readiness_controlle.Api.{Node, NodeReadinessRule}
use node_readiness_controlle.Platform.{Client}
use node_readiness_controlle.RuleController.Cache.{Controller, get_cached_rule, rule_applies_to}
use node_readiness_controlle.RuleController.Cache.Applicable.{lookup-IsIn, IsIn-lookup}
use node_readiness_controlle.Memory.Heap.{Heap}
use node_readiness_controlle.Memory.Objects.{LibraryTypes, Cell, Library}
use node_readiness_controlle.Memory.RuleCache.{
  PointerController, read_rule, applicable_pointers, get_applicable_pointers,
}
use node_readiness_controlle.Memory.RuleCache.Views.{Owners, EntryView, Views}

module _ {W S : Type 0} (c : Client W S) {T : LibraryTypes} (lib : Library T) (node : Node)
    (h : Heap (Cell T)) where
  -- The pointer is that of an entry of the map, and its rule applies to the node.
  abbrev IsApplicable : StringMap (Option ℕ) → Option ℕ → Type 0
  IsApplicable m p =
      (name : String) × (rule : NodeReadinessRule) × IsIn (name, p) m
      × (read_rule lib h p ≡ some rule)
      × (rule_applies_to c rule node ≡ true)

  -- The pointers that a map gives.
  record Gives (m : StringMap (Option ℕ)) : Type 0 where
    pointers : List (Option ℕ)
    ends : applicable_pointers c lib node m h ≡ some (pointers, h)
    are : (p : Option ℕ) → IsIn p pointers ↔ IsApplicable m p

  IsApplicable-later :
      (x : String × Option ℕ) (m : StringMap (Option ℕ)) (p : Option ℕ)
      → IsApplicable m p
      → IsApplicable (x ∷ m) p
  IsApplicable-later x m p (n, rule, there, read, applies) = (n, rule, in_tail there, read, applies)

  -- One turn of the loop, `b` being whether the rule applies.
  module _ (name : String) (q p : Option ℕ) (m : StringMap (Option ℕ)) (pointers : List (Option ℕ))
      (rule : NodeReadinessRule) (read : read_rule lib h q ≡ some rule) where
    given-IsApplicable :
        (b : Bool)
        → rule_applies_to c rule node ≡ b
        → (IsIn p pointers → IsApplicable m p)
        → IsIn p (if b then q ∷ pointers else pointers)
        → IsApplicable ((name, q) ∷ m) p
    given-IsApplicable true applies rest (at_head e) =
        (name, rule, at_head (ap (λ x. (name, x)) e), ap (read_rule lib h) e ∙ read, applies)
    given-IsApplicable true applies rest (in_tail r) = IsApplicable-later (name, q) m p (rest r)
    given-IsApplicable false applies rest r = IsApplicable-later (name, q) m p (rest r)

    IsApplicable-given :
        (b : Bool)
        → rule_applies_to c rule node ≡ b
        → (IsApplicable m p → IsIn p pointers)
        → IsApplicable ((name, q) ∷ m) p
        → IsIn p (if b then q ∷ pointers else pointers)
    IsApplicable-given true applies rest (n, rule', at_head e, read', applies') =
        at_head (ap (λ x. x.1) e)
    IsApplicable-given true applies rest (n, rule', in_tail r, read', applies') =
        in_tail (rest (n, rule', r, read', applies'))
    IsApplicable-given false applies rest (n, rule', at_head e, read', applies') =
        let same : p ≡ q = ap (λ x. x.1) e in
        let known : rule' ≡ rule = cc (same, read, read') in absurd (cc (known, applies, applies'))
    IsApplicable-given false applies rest (n, rule', in_tail r, read', applies') =
        rest (n, rule', r, read', applies')

  none-IsApplicable : (p : Option ℕ) → IsIn p [] ↔ IsApplicable [] p
  none-IsApplicable p = (λ r. elim r [ ], λ a. elim (a.2) [ ])

  applicable_pointers-Gives :
      (m : StringMap (Option ℕ))
      → ((name : String) (p : Option ℕ)
          → IsIn (name, p) m
          → (rule : NodeReadinessRule) × (read_rule lib h p ≡ some rule))
      → Gives m
  unfolding applicable_pointers
  applicable_pointers-Gives [] read = record { pointers = []; ends = refl; are = none-IsApplicable }
  applicable_pointers-Gives ((name, q) ∷ m) read =
      let (rule, there) = read name q (at_head refl) in
      let rest = applicable_pointers-Gives m (λ n p r. read n p (in_tail r)) in
      record {
        pointers = if rule_applies_to c rule node then q ∷ rest.pointers else rest.pointers;
        ends = rw (there, rest.ends) refl;
        are = λ p. (
          given-IsApplicable name q p m rest.pointers rule there _ refl (rest.are p).0,
          IsApplicable-given name q p m rest.pointers rule there _ refl (rest.are p).1,
        );
      }

-- An order in which a range over a map meets exactly its entries.
abbrev pub IsOrder : (StringMap (Option ℕ) → StringMap (Option ℕ)) → Type 0
IsOrder range_order =
    (m : StringMap (Option ℕ)) (e : String × Option ℕ) → IsIn e (range_order m) ↔ IsIn e m

-- What getApplicableRulesForNode gives.
pub record IsShared {W S : Type 0} (c : Client W S) {C : Type 0} (h : Heap C)
    (r : PointerController) (k : Controller) (node : Node) (out : Option (List (Option ℕ) × Heap C))
    : Type 0 where
  pub pointers : List (Option ℕ)
  pub ends : out ≡ some (pointers, h)
  pub are :
      (p : Option ℕ)
      → IsIn p pointers
        ↔ (name : String) × (rule : NodeReadinessRule) × (lookup name r.rule_cache ≡ some p)
          × (get_cached_rule name k ≡ some rule)
          × (rule_applies_to c rule node ≡ true)

module _ {W S : Type 0} (c : Client W S) {T : LibraryTypes} (lib : Library T) (owners : Owners)
    (h : Heap (Cell T)) (r : PointerController) (k : Controller)
    (views : Views lib owners h r k) where
  -- The rule behind an entry.
  entry_rule :
      (own : ℕ → Bool) (p : Option ℕ) (found : Option NodeReadinessRule)
      → EntryView lib own h (some p) found
      → (rule : NodeReadinessRule) × (found ≡ some rule) × (read_rule lib h p ≡ some rule)
  entry_rule own p none view = absurd view
  entry_rule own p (some rule) view = (rule, refl, view h (λ q x o e. e))

  cached_rule :
      (name : String) (p : Option ℕ)
      → lookup name r.rule_cache ≡ some p
      → (rule : NodeReadinessRule) × (lookup name k.rule_cache ≡ some rule)
        × (read_rule lib h p ≡ some rule)
  cached_rule name p e = entry_rule (owners name) p (lookup name k.rule_cache) (
      subst (λ o. EntryView lib (owners name) h o (lookup name k.rule_cache)) e
        (views.entries name))

  -- What a range meets.
  entry :
      (range_order : StringMap (Option ℕ) → StringMap (Option ℕ))
      → IsOrder range_order
      → (name : String) (p : Option ℕ) → IsIn (name, p) (range_order r.rule_cache)
      → lookup name r.rule_cache ≡ some p
  entry range_order law name p there =
      IsIn-lookup name p r.rule_cache views.is_map ((law r.rule_cache (name, p)).0 there)

  -- Where the cache in memory stands for the map of values and a range over a map meets exactly
  -- its entries, in whatever order: getApplicableRulesForNode ends without a fault and leaves the
  -- memory as it is, and it gives out the pointers of the cache's own entries, uncopied: those of
  -- the names whose rule in the map of values applies to the node, and no other.
  pub get_applicable_pointers-IsShared :
      (range_order : StringMap (Option ℕ) → StringMap (Option ℕ))
      → IsOrder range_order
      → (node : Node) → IsShared c h r k node (get_applicable_pointers c lib range_order node r h)
  unfolding get_applicable_pointers get_cached_rule
  get_applicable_pointers-IsShared range_order law node =
      let given = applicable_pointers-Gives c lib node h (range_order r.rule_cache) (λ name p r'.
        let (rule, _, read) = cached_rule name p (entry range_order law name p r') in
        (rule, read)) in
      record {
        pointers = given.pointers;
        ends = given.ends;
        are = λ p. (
          λ r'.
              let (name, rule, there, read, applies) = (given.are p).0 r' in
              let (rule', cached, read') =
                cached_rule name p (entry range_order law name p there) in
              (name, rule, entry range_order law name p there, cc (cached, read, read'), applies),
          λ (name, rule, there, cached, applies).
              let (rule', cached', read) = cached_rule name p there in
              (given.are p).1 (
                name,
                rule,
                (law r.rule_cache (name, p)).1 (lookup-IsIn name p r.rule_cache there),
                cc (cached, cached', read),
                applies,
              ),
        );
      }
