-- ===== src/Memory/RuleCache/Entries.antt =====
-- About the entries of the rule cache in memory: what the removal of one, a write elsewhere and new
-- cells for one do to the rules that they stand for.
use node_readiness_controlle.Prelude.{
  ℕ, String, Bool, true, false, ◌≤◌, ◌<◌, Option, some, ◌≡◌, ◌≢◌, ◌⊎◌, sym, ◌∙◌, arith, eq_iff,
  lookup, insert, delete, insert-IsMap, delete-IsMap, lookup-insert, lookup-delete, if◌then◌else◌,
  ◌==◌, Bool-cases, inl, inr, StringMap, IsMap,
}
use node_readiness_controlle.Api.{NodeReadinessRule}
use node_readiness_controlle.RuleController.Cache.{Controller, remove_rule_from_cache}
use node_readiness_controlle.Memory.Heap.{Heap}
use node_readiness_controlle.Memory.Heap.Deep.{IsValidHeap, Extends}
use node_readiness_controlle.Memory.Objects.{LibraryTypes, Cell, Library}
use node_readiness_controlle.Memory.RuleCache.{PointerController, remove_pointer}
use node_readiness_controlle.Memory.RuleCache.Views.{
  between, Owners, give, Agrees, Holds, EntryView, Views, EntryView-kept,
}

module _ {T : LibraryTypes} (lib : Library T) where
  module _ (owners : Owners) (h : Heap (Cell T)) (r : PointerController) (k : Controller)
      (views : Views lib owners h r k) where
    -- A memory that has all that there was.
    pub Views-Extends : (after : Heap (Cell T)) → Extends h after → Views lib owners after r k
    Views-Extends after ext = record {
      valid = ext.valid;
      switch = views.switch;
      is_map = views.is_map;
      is_map_of_values = views.is_map_of_values;
      entries = λ n.
          EntryView-kept lib (owners n) h after _ _ (λ q x o e. ext.kept q x e) (views.entries n);
      bounded = λ n q o. omega (arith, views.bounded n q o, ext.grows);
      apart = views.apart;
    }

    removed_entry :
        (name n : String)
        → ((name == n) ≡ true) ⊎ ((name == n) ≡ false)
        → EntryView lib
            (owners n)
            h
            (lookup n (delete name r.rule_cache))
            (lookup n (delete name k.rule_cache))
    removed_entry name n (inl same) =
        rw
          (
            lookup-delete name n r.rule_cache views.is_map,
            lookup-delete name n k.rule_cache views.is_map_of_values,
            same,
          )
          tt
    removed_entry name n (inr other) =
        rw
          (
            lookup-delete name n r.rule_cache views.is_map,
            lookup-delete name n k.rule_cache views.is_map_of_values,
            other,
          )
          (views.entries n)

    -- removeRuleFromCache
    pub remove_pointer-Views :
        (name : String) → Views lib owners h (remove_pointer name r) (remove_rule_from_cache name k)
    unfolding remove_pointer remove_rule_from_cache
    remove_pointer-Views name = record {
      valid = views.valid;
      switch = views.switch;
      is_map = delete-IsMap name r.rule_cache views.is_map;
      is_map_of_values = delete-IsMap name k.rule_cache views.is_map_of_values;
      entries = λ n. removed_entry name n (Bool-cases (name == n));
      bounded = views.bounded;
      apart = views.apart;
    }

    -- What others write, in cells that no entry owns.
    pub written-Views :
        (after : Heap (Cell T))
        → IsValidHeap after
        → h.next ≤ after.next
        → ((n : String) → Agrees lib (owners n) h after)
        → Views lib owners after r k
    written-Views after valid grows same = record {
      valid = valid;
      switch = views.switch;
      is_map = views.is_map;
      is_map_of_values = views.is_map_of_values;
      entries = λ n. EntryView-kept lib (owners n) h after _ _ (same n) (views.entries n);
      bounded = λ n q o. omega (arith, views.bounded n q o, grows);
      apart = views.apart;
    }

    -- An entry that gets other cells: new ones, or such as it had.
    module _ (name : String) (own : ℕ → Bool) (after : Heap (Cell T)) (grows : h.next ≤ after.next)
        (from : (q : ℕ)
          → own q ≡ true
          → (owners name q ≡ true) ⊎ (between h.next after.next q ≡ true)) where
      pub given_bounded : (n : String) (q : ℕ) → give name own owners n q ≡ true → q < after.next
      given_bounded n q = elim (Bool-cases (name == n)) [
        | inl same ↦ rw same (λ o. elim (from q o) [
          | inl old ↦ omega (arith, views.bounded name q old, grows)
          | inr new ↦ ground arith
        ])
        | inr other ↦ rw other (λ o. omega (arith, views.bounded n q o, grows))
      ]

      own_apart : (n : String) (q : ℕ) → name ≢ n → own q ≡ true → owners n q ≢ true
      own_apart n q distinct o held = elim (from q o) [
        | inl old ↦ views.apart name n q distinct old held
        | inr new ↦ absurd (let below = views.bounded n q held in ground arith)
      ]

      pub given_apart :
          (m n : String) (q : ℕ)
          → m ≢ n
          → give name own owners m q ≡ true
          → give name own owners n q ≢ true
      given_apart m n q distinct = elim (Bool-cases (name == m)) [
        | inl left ↦ elim (Bool-cases (name == n)) [
          | inl right ↦ absurd (distinct (sym ((eq_iff name m).0 left) ∙ (eq_iff name n).0 right))
          | inr other ↦
              rw (left, other) (own_apart n q (λ e. distinct (sym ((eq_iff name m).0 left) ∙ e)))
        ]
        | inr other ↦ elim (Bool-cases (name == n)) [
          | inl right ↦
              rw (other, right)
                (λ held o. own_apart m q (λ e. distinct (sym e ∙ (eq_iff name n).0 right)) o held)
          | inr neither ↦ rw (other, neither) (views.apart m n q distinct)
        ]
      ]

      -- The entry of that name leads to the rule from now on.
      pub given-Views :
          (p : Option ℕ) (rule : NodeReadinessRule) (m : StringMap (Option ℕ))
          → IsValidHeap after
          → ((n : String) → n ≢ name → Agrees lib (owners n) h after)
          → Holds lib own after p rule
          → IsMap m
          → ((n : String) → lookup n m ≡ (if name == n then some p else lookup n r.rule_cache))
          → Views lib
              (give name own owners)
              after
              (record r { rule_cache = m })
              (record k { rule_cache = insert name rule k.rule_cache })
      given-Views p rule m valid same holds is_map finds = record {
        valid = valid;
        switch = views.switch;
        is_map = is_map;
        is_map_of_values = insert-IsMap name rule k.rule_cache views.is_map_of_values;
        entries = λ n. elim (Bool-cases (name == n)) [
          | inl here ↦ rw (finds n, lookup-insert name n rule k.rule_cache, here) holds
          | inr other ↦
              rw (finds n, lookup-insert name n rule k.rule_cache, other)
                (EntryView-kept lib (owners n) h after _ _
                  (same n (λ e. ground (arith, eq_iff name n, sym e))) (views.entries n))
        ];
        bounded = given_bounded;
        apart = given_apart;
      }
