-- ===== src/Memory/RuleCache/History.antt =====
-- About the rule cache in memory over any history of its operations, of writes of the node reconciler
-- through the pointers that getApplicableRulesForNode gives it, and of writes elsewhere.
use node_readiness_controlle.Prelude.{
  StringMap, refl, ℕ, String, Bool, true, ◌≤◌, Option, some, ◌≡◌, ◌≢◌, ◌⊎◌, ◌==◌, lookup, subst,
  sym, ◌∙◌, if◌then◌else◌, Bool-cases, inl, inr, eq_iff,
}
use node_readiness_controlle.Api.{NodeReadinessRule}
use node_readiness_controlle.RuleController.Cache.{
  Controller, new_readiness_gate_controller, update_rule_cache, remove_rule_from_cache,
  set_global_dry_run,
}
use node_readiness_controlle.Memory.Heap.{Heap}
use node_readiness_controlle.Memory.Heap.Deep.{IsValidHeap}
use node_readiness_controlle.Memory.Copies.{read_pointer}
use node_readiness_controlle.Memory.Objects.{LibraryTypes, Cell, Library, RuleValue}
use node_readiness_controlle.Memory.Objects.Kinds.{rule_kind}
use node_readiness_controlle.Memory.Entries.Laws.{IsLibrary}
use node_readiness_controlle.Memory.Rules.{rule_copier}
use node_readiness_controlle.Memory.RuleCache.{
  PointerController, new_pointer_controller, update_pointer_cache, get_cached_pointer,
  remove_pointer,
}
use node_readiness_controlle.Memory.RuleCache.Views.{
  between, Owners, own_nothing, give, Agrees, Holds, Views, start-Views,
}
use node_readiness_controlle.Memory.RuleCache.Entries.{
  Views-Extends, remove_pointer-Views, written-Views, given-Views,
}
use node_readiness_controlle.Memory.RuleCache.Refinement.{
  update_pointer_cache-Updated, get_cached_pointer-IsGot,
}

some_injective : {A : Type 0} {a b : A} → some a ≡ some b → a ≡ b
some_injective e = cc

found_under :
    (m : StringMap (Option ℕ)) (name : String) (p : Option ℕ)
    → lookup name m ≡ some p
    → (n : String) → lookup n m ≡ (if name == n then some p else lookup n m)
found_under m name p there n = elim (Bool-cases (name == n)) [
  | inl e ↦ rw e (subst (λ x. lookup x m ≡ some p) ((eq_iff name n).0 e) there)
  | inr e ↦ rw e refl
]

module _ {T : LibraryTypes} (lib : Library T) where
  -- The memory and the cache in it, beside the map of values that the model has for it.
  pub data History : Owners → Heap (Cell T) → PointerController → Controller → Type 0 where
    started :
        (h : Heap (Cell T))
        → IsValidHeap h
        → History own_nothing h new_pointer_controller new_readiness_gate_controller
    -- updateRuleCache of a rule that the caller has in memory
    updated :
        {owners : Owners} {h : Heap (Cell T)} {r : PointerController} {k : Controller}
        → History owners h r k
        → (p : Option ℕ) (v : RuleValue) (r' : PointerController) (after : Heap (Cell T))
        → read_pointer (rule_kind T) (rule_copier lib) h p ≡ some (some v)
        → update_pointer_cache lib p r h ≡ some (r', after)
        → History
            (give v.rule.name (between h.next after.next) owners)
            after
            r'
            (update_rule_cache v.rule k)
    -- getCachedRule
    got :
        {owners : Owners} {h : Heap (Cell T)} {r : PointerController} {k : Controller}
        → History owners h r k
        → (name : String) (p : Option ℕ) (after : Heap (Cell T))
        → get_cached_pointer lib name r h ≡ some (p, after)
        → History owners after r k
    -- removeRuleFromCache
    removed :
        {owners : Owners} {h : Heap (Cell T)} {r : PointerController} {k : Controller}
        → History owners h r k
        → (name : String) → History owners h (remove_pointer name r) (remove_rule_from_cache name k)
    -- SetGlobalDryRun
    switched :
        {owners : Owners} {h : Heap (Cell T)} {r : PointerController} {k : Controller}
        → History owners h r k
        → (b : Bool) → History owners h (record r { global_dry_run = b }) (set_global_dry_run b k)
    -- Writes and allocations that leave the cells of the entries alone.
    written :
        {owners : Owners} {h : Heap (Cell T)} {r : PointerController} {k : Controller}
        → History owners h r k
        → (after : Heap (Cell T)) → IsValidHeap after
        → h.next ≤ after.next
        → ((n : String) → Agrees lib (owners n) h after)
        → History owners after r k
    -- Writes through the pointer of an entry, which leave it with cells of its own or new ones, and
    -- the other entries alone: the model writes the rule back under its name.
    mutated :
        {owners : Owners} {h : Heap (Cell T)} {r : PointerController} {k : Controller}
        → History owners h r k
        → (p : Option ℕ) (rule : NodeReadinessRule) (own : ℕ → Bool) (after : Heap (Cell T))
        → lookup rule.name r.rule_cache ≡ some p
        → IsValidHeap after
        → h.next ≤ after.next
        → ((n : String) → n ≢ rule.name → Agrees lib (owners n) h after)
        → ((q : ℕ)
            → own q ≡ true
            → (owners rule.name q ≡ true) ⊎ (between h.next after.next q ≡ true))
        → Holds lib own after p rule
        → History (give rule.name own owners) after r (update_rule_cache rule k)

  module _ (deep : IsLibrary lib) where
    -- Where the copies that the libraries make are deep: over any history, from an empty cache,
    -- of updateRuleCache, getCachedRule, removeRuleFromCache and changes of the switch, of writes
    -- through an entry's pointer that leave it with cells of its own or new ones and leave the
    -- other entries' cells alone, and of writes that leave the cells of all entries alone, the
    -- cache in memory stands for the map of values of the model: the names, the switch and the
    -- rules that the pointers lead to are the same, whatever happens to cells that an entry does
    -- not own, and no two entries own the same cell.
    pub History-Views :
        {owners : Owners} {h : Heap (Cell T)} {r : PointerController} {k : Controller}
        → History owners h r k
        → Views lib owners h r k
    unfolding update_rule_cache set_global_dry_run
    History-Views (started h valid) = start-Views lib h valid
    History-Views (updated {owners} {h} {r} {k} s p v r' after read run) =
        let u = update_pointer_cache-Updated lib deep owners h r k (History-Views s) p v read in
        subst
          (λ o.
            Views lib (give v.rule.name (between h.next o.1.next) owners) o.1 o.0
              (update_rule_cache v.rule k))
          (some_injective (sym u.ends ∙ run)) u.viewed
    History-Views (got {owners} {h} {r} {k} s name p after run) =
        let g = get_cached_pointer-IsGot lib deep owners h r k name (History-Views s) in
        subst (λ o. Views lib owners o.1 r k) (some_injective (sym g.ends ∙ run))
          (Views-Extends lib owners h r k (History-Views s) g.after g.extends)
    History-Views (removed {owners} {h} {r} {k} s name) =
        remove_pointer-Views lib owners h r k (History-Views s) name
    History-Views (switched {owners} {h} {r} {k} s b) =
        let views = History-Views s in
        record {
          valid = views.valid;
          switch = refl;
          is_map = views.is_map;
          is_map_of_values = views.is_map_of_values;
          entries = views.entries;
          bounded = views.bounded;
          apart = views.apart;
        }
    History-Views (written {owners} {h} {r} {k} s after valid grows same) =
        written-Views lib owners h r k (History-Views s) after valid grows same
    History-Views
          (mutated {owners} {h} {r} {k} s p rule own after there valid grows same from held) =
        let views = History-Views s in
        given-Views lib owners h r k views rule.name own after grows from p rule r.rule_cache valid
          same held views.is_map (found_under r.rule_cache rule.name p there)
