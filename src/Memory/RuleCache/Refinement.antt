-- ===== src/Memory/RuleCache/Refinement.antt =====
-- About updateRuleCache and getCachedRule on the cache in memory: they do to the rules that the
-- entries stand for what their counterparts do to the map of values.
use node_readiness_controlle.Prelude.{
  ℕ, String, Bool, Option, none, some, ◌≡◌, refl, ap, ◌∙◌, arith, lookup, insert, insert-IsMap,
  lookup-insert, inr,
}
use node_readiness_controlle.Api.{NodeReadinessRule}
use node_readiness_controlle.RuleController.Cache.{Controller, update_rule_cache, get_cached_rule}
use node_readiness_controlle.Memory.Heap.{
  Heap, and_then, first_item, pure, run_next, ◌>>=◌, read_array, load,
}
use node_readiness_controlle.Memory.Heap.Deep.{IsValidHeap, Has, Extends, Extends-self}
use node_readiness_controlle.Memory.Copies.{read_pointer}
use node_readiness_controlle.Memory.Copies.Laws.{and_then-some, pointer-IsDeep}
use node_readiness_controlle.Memory.Objects.{LibraryTypes, Cell, Library, RuleObject, RuleValue}
use node_readiness_controlle.Memory.Objects.Kinds.{rule_kind}
use node_readiness_controlle.Memory.Entries.Laws.{IsLibrary}
use node_readiness_controlle.Memory.Rules.{rule_copier, deep_copy_rule, spec_copier, status_copier}
use node_readiness_controlle.Memory.Rules.Laws.{rule-IsDeep}
use node_readiness_controlle.Memory.RuleCache.{
  PointerController, read_rule, object_name, load_name, update_pointer_cache, copy_found,
  get_cached_pointer,
}
use node_readiness_controlle.Memory.RuleCache.Views.{between, Owners, give, EntryView, Views}
use node_readiness_controlle.Memory.RuleCache.Entries.{given-Views}

module _ {T : LibraryTypes} (lib : Library T) where
  -- The name of a rule that can be read.
  object_name_lem :
      (h : Heap (Cell T)) (object : RuleObject T) (v : RuleValue)
      → (rule_copier lib).read h object ≡ some v
      → object_name lib object h ≡ some (v.rule.name, h)
  object_name_lem h object v e =
      let (meta, read, rest) = and_then-some (lib.object_meta.read h object.object_meta) _ v e in
      let (spec, read', rest') = and_then-some ((spec_copier lib).read h object.spec) _ v rest in
      let (status, read'', last) =
        and_then-some ((status_copier lib).read h object.status) _ v rest' in
      rw read (cc (last))

  load_name_lem :
      (h : Heap (Cell T)) (p : Option ℕ) (v : RuleValue)
      → read_pointer (rule_kind T) (rule_copier lib) h p ≡ some (some v)
      → load_name lib p h ≡ some (v.rule.name, h)
  unfolding load_name load
  load_name_lem h none v e = cc
  load_name_lem h (some p) v e =
      let (object, found, later) =
        and_then-some (and_then (read_array (rule_kind T) h p) first_item) _ (some v) e in
      let (v', value, last) = and_then-some ((rule_copier lib).read h object) _ (some v) later in
      let same : v' ≡ v = cc (last) in rw found (object_name_lem h object v (value ∙ ap some same))

  module _ (deep : IsLibrary lib) (owners : Owners) (h : Heap (Cell T)) (r : PointerController)
      (k : Controller) (views : Views lib owners h r k) where
    -- What holds after updateRuleCache of a rule.
    pub record Updated (rule : Option ℕ) (v : RuleValue) : Type 0 where
      pub rule_copy : Option ℕ
      pub after : Heap (Cell T)
      pub ends :
          update_pointer_cache lib rule r h
          ≡ some (record r { rule_cache = insert v.rule.name rule_copy r.rule_cache }, after)
      pub extends : Extends h after
      pub viewed :
          Views lib
            (give v.rule.name (between h.next after.next) owners)
            after
            (record r { rule_cache = insert v.rule.name rule_copy r.rule_cache })
            (update_rule_cache v.rule k)

    pub update_pointer_cache-Updated :
        (rule : Option ℕ) (v : RuleValue)
        → read_pointer (rule_kind T) (rule_copier lib) h rule ≡ some (some v)
        → Updated rule v
    unfolding update_pointer_cache update_rule_cache deep_copy_rule
    update_pointer_cache-Updated rule v e =
        let whole = pointer-IsDeep (rule_kind T) (rule_copier lib) (rule-IsDeep lib deep) in
        let made = whole.copies h rule (some v) views.valid e in
        let named =
          load_name_lem made.after rule v
            (whole.stable h made.after rule (some v) made.extends.kept e) in
        record {
          rule_copy = made.result;
          after = made.after;
          ends =
              ap
                (run_next (λ q. load_name lib rule >>= λ n.
                  pure (record r { rule_cache = insert n q r.rule_cache })))
                made.runs
              ∙ ap
                  (run_next
                    (λ n. pure (record r { rule_cache = insert n made.result r.rule_cache })))
                  named;
          extends = made.extends;
          viewed =
              given-Views lib owners h r k views v.rule.name (between h.next made.after.next)
                made.after made.extends.grows (λ q o. inr o) made.result v.rule
                (insert v.rule.name made.result r.rule_cache) made.extends.valid
                (λ n d q x o c. made.extends.kept q x c)
                (λ l a.
                  rw
                    (made.holds l
                      (λ q x le c. a q x (let low = made.extends.valid q x c in ground arith) c))
                    refl)
                (insert-IsMap v.rule.name made.result r.rule_cache views.is_map)
                (λ n. lookup-insert v.rule.name n made.result r.rule_cache);
        }

  -- The pointer is nil, or leads to the rule wherever the cells above are.
  abbrev pub Leads : ℕ → Heap (Cell T) → Option ℕ → Option NodeReadinessRule → Type 0
  Leads low after p none = p ≡ none
  Leads low after p (some rule) =
      (l : Heap (Cell T)) → Has low after l → read_rule lib l p ≡ some rule

  -- What a read of the cache gives, where the map of values gives `found`.
  pub record IsGot (h : Heap (Cell T)) (out : Option (Option ℕ × Heap (Cell T)))
      (found : Option NodeReadinessRule) : Type 0 where
    pub rule_copy : Option ℕ
    pub after : Heap (Cell T)
    pub ends : out ≡ some (rule_copy, after)
    pub extends : Extends h after
    pub leads : Leads h.next after rule_copy found

  -- A pointer that leads to a rule has the rule behind it.
  read_rule_inv :
      (h : Heap (Cell T)) (p : Option ℕ) (rule : NodeReadinessRule)
      → read_rule lib h p ≡ some rule
      → (v : RuleValue) × (read_pointer (rule_kind T) (rule_copier lib) h p ≡ some (some v))
        × (v.rule ≡ rule)
  read_rule_inv h p rule e =
      let (o, read, rest) =
        and_then-some (read_pointer (rule_kind T) (rule_copier lib) h p) _ rule e in
      let (v, there, last) = and_then-some o _ rule rest in (v, read ∙ ap some there, cc (last))

  copy_found-IsGot :
      (deep : IsLibrary lib) (own : ℕ → Bool) (h : Heap (Cell T))
      → IsValidHeap h
      → (o : Option (Option ℕ)) (found : Option NodeReadinessRule) → EntryView lib own h o found
      → IsGot h (copy_found lib o h) found
  unfolding deep_copy_rule
  copy_found-IsGot deep own h valid none none view = record {
    rule_copy = none;
    after = h;
    ends = refl;
    extends = Extends-self h valid;
    leads = refl;
  }
  copy_found-IsGot deep own h valid (some p) (some rule) view =
      let (v, read, same) = read_rule_inv h p rule (view h (λ q x o e. e)) in
      let whole = pointer-IsDeep (rule_kind T) (rule_copier lib) (rule-IsDeep lib deep) in
      let made = whole.copies h p (some v) valid read in
      record {
        rule_copy = made.result;
        after = made.after;
        ends = made.runs;
        extends = made.extends;
        leads = λ l has. rw (made.holds l has) (ap some same);
      }
  copy_found-IsGot deep own h valid none (some rule) view = absurd view
  copy_found-IsGot deep own h valid (some p) none view = absurd view

  -- Where the copies that the libraries make are deep and the cache in memory stands for the map
  -- of values: getCachedRule ends without a fault and changes no cell that was in use; it gives
  -- nil where the map has no rule of that name, and else a pointer that leads to the map's rule
  -- in every memory that has the cells that it made, whatever happens to the cache's own.
  pub get_cached_pointer-IsGot :
      (deep : IsLibrary lib) (owners : Owners) (h : Heap (Cell T)) (r : PointerController)
      (k : Controller) (name : String)
      → Views lib owners h r k
      → IsGot h (get_cached_pointer lib name r h) (get_cached_rule name k)
  unfolding get_cached_pointer get_cached_rule
  get_cached_pointer-IsGot deep owners h r k name views =
      copy_found-IsGot deep (owners name) h views.valid (lookup name r.rule_cache)
        (lookup name k.rule_cache) (views.entries name)
