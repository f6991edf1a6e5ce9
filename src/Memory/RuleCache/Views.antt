-- ===== src/Memory/RuleCache/Views.antt =====
-- About the rule cache in memory: the cells that its entries own, and the rules that they stand for.
use node_readiness_controlle.Prelude.{
  ℕ, String, Bool, true, false, ◌<◌, Option, none, some, ◌≡◌, ◌≢◌, refl, lookup, IsMap,
  if◌then◌else◌, ◌==◌, ◌&&◌, ltb, not,
}
use node_readiness_controlle.Api.{NodeReadinessRule}
use node_readiness_controlle.RuleController.Cache.{Controller, new_readiness_gate_controller}
use node_readiness_controlle.Memory.Heap.{Heap}
use node_readiness_controlle.Memory.Heap.Deep.{IsValidHeap}
use node_readiness_controlle.Memory.Objects.{LibraryTypes, Cell, Library}
use node_readiness_controlle.Memory.RuleCache.{PointerController, new_pointer_controller, read_rule}

-- The addresses between two.
abbrev pub between : ℕ → ℕ → ℕ → Bool
between low high q = not (ltb q low) && ltb q high

-- For each name, the addresses that the entry of that name owns.
abbrev pub Owners : Type 0
Owners = String → ℕ → Bool

abbrev pub own_nothing : Owners
own_nothing n q = false

-- The entry of a name owns these addresses now.
abbrev pub give : String → (ℕ → Bool) → Owners → Owners
give name own owners n = if name == n then own else owners n

module _ {T : LibraryTypes} (lib : Library T) where
  -- The owned cells of `h` are the same in `k`.
  abbrev pub Agrees : (ℕ → Bool) → Heap (Cell T) → Heap (Cell T) → Type 0
  Agrees own h k = (q : ℕ) (x : Cell T) → own q ≡ true → h.cell q ≡ some x → k.cell q ≡ some x

  -- The pointer leads to the rule, as long as the owned cells stay.
  abbrev pub Holds : (ℕ → Bool) → Heap (Cell T) → Option ℕ → NodeReadinessRule → Type 0
  Holds own h p rule = (k : Heap (Cell T)) → Agrees own h k → read_rule lib k p ≡ some rule

  -- An entry in memory against one of the map of values.
  abbrev pub EntryView :
      (ℕ → Bool) → Heap (Cell T) → Option (Option ℕ) → Option NodeReadinessRule → Type 0
  EntryView own h none none = Unit
  EntryView own h (some p) (some rule) = Holds own h p rule
  EntryView own h none (some rule) = ⊥
  EntryView own h (some p) none = ⊥

  -- The cache in memory stands for the one of values, and no two entries share a cell.
  pub record Views (owners : Owners) (h : Heap (Cell T)) (r : PointerController) (k : Controller)
      : Type 0 where
    pub valid : IsValidHeap h
    pub switch : r.global_dry_run ≡ k.global_dry_run
    pub is_map : IsMap r.rule_cache
    pub is_map_of_values : IsMap k.rule_cache
    pub entries :
        (n : String) → EntryView (owners n) h (lookup n r.rule_cache) (lookup n k.rule_cache)
    pub bounded : (n : String) (q : ℕ) → owners n q ≡ true → q < h.next
    pub apart : (m n : String) (q : ℕ) → m ≢ n → owners m q ≡ true → owners n q ≢ true

  pub start-Views :
      (h : Heap (Cell T))
      → IsValidHeap h
      → Views own_nothing h new_pointer_controller new_readiness_gate_controller
  start-Views h valid = record {
    valid = valid;
    switch = refl;
    is_map = tt;
    is_map_of_values = tt;
    entries = λ n. tt;
    bounded = λ n q e. cc;
    apart = λ m n q d e f. cc;
  }

  Agrees-Holds :
      (own : ℕ → Bool) (h k : Heap (Cell T)) (p : Option ℕ) (rule : NodeReadinessRule)
      → Agrees own h k
      → Holds own h p rule
      → Holds own k p rule
  Agrees-Holds own h k p rule a held l b = held l (λ q x o e. b q x o (a q x o e))

  -- An entry stays what it is where its cells stay.
  pub EntryView-kept :
      (own : ℕ → Bool) (h k : Heap (Cell T)) (p : Option (Option ℕ))
      (rule : Option NodeReadinessRule)
      → Agrees own h k
      → EntryView own h p rule
      → EntryView own k p rule
  EntryView-kept own h k none none a v = tt
  EntryView-kept own h k (some p) (some rule) a v = Agrees-Holds own h k p rule a v
  EntryView-kept own h k none (some rule) a v = v
  EntryView-kept own h k (some p) none a v = v
