-- ===== src/RuleController/Cache/Laws.antt =====
-- About updateRuleCache, getCachedRule and removeRuleFromCache: the shape of the rule cache.
use node_readiness_controlle.Prelude.{
  String, [], ◌∷◌, none, some, ◌==◌, ◌≡◌, refl, arith, StringMap, insert, delete, IsMap,
  insert-IsMap, delete-IsMap, lookup-insert, lookup-delete, All, if◌then◌else◌,
}
use node_readiness_controlle.Api.{NodeReadinessRule}
use node_readiness_controlle.RuleController.Cache.{
  Controller, update_rule_cache, get_cached_rule, remove_rule_from_cache,
}

-- Each rule stands under its own name.
abbrev pub IsNamed : StringMap NodeReadinessRule → Type 0
IsNamed = All (λ e. e.1.name ≡ e.0)

pub record IsValid (r : Controller) : Type 0 where
  pub is_map : IsMap r.rule_cache
  pub is_named : IsNamed r.rule_cache

insert-IsNamed :
    (rule : NodeReadinessRule) (m : StringMap NodeReadinessRule)
    → IsNamed m
    → IsNamed (insert rule.name rule m)
insert-IsNamed rule [] h = (refl, tt)
insert-IsNamed rule ((k, x) ∷ m) h = ground (arith, insert-IsNamed rule m h.1)

delete-IsNamed : (k : String) (m : StringMap NodeReadinessRule) → IsNamed m → IsNamed (delete k m)
delete-IsNamed k [] h = tt
delete-IsNamed k ((j, x) ∷ m) h = ground (arith, delete-IsNamed k m h.1)

pub update_rule_cache-IsValid :
    (rule : NodeReadinessRule) (r : Controller) → IsValid r → IsValid (update_rule_cache rule r)
unfolding update_rule_cache
update_rule_cache-IsValid rule r h = record {
  is_map = insert-IsMap rule.name rule r.rule_cache h.is_map;
  is_named = insert-IsNamed rule r.rule_cache h.is_named;
}

pub remove_rule_from_cache-IsValid :
    (k : String) (r : Controller) → IsValid r → IsValid (remove_rule_from_cache k r)
unfolding remove_rule_from_cache
remove_rule_from_cache-IsValid k r h = record {
  is_map = delete-IsMap k r.rule_cache h.is_map;
  is_named = delete-IsNamed k r.rule_cache h.is_named;
}

-- What is found after an update: the new version under its name, all else as before.
pub get-update :
    (rule : NodeReadinessRule) (k : String) (r : Controller)
    → get_cached_rule k (update_rule_cache rule r)
      ≡ (if rule.name == k then some rule else get_cached_rule k r)
unfolding update_rule_cache get_cached_rule
get-update rule k r = lookup-insert rule.name k rule r.rule_cache

-- In a valid cache, a reader finds nothing under a name that was removed, and under every other
-- name what was there.
pub get-remove :
    (n k : String) (r : Controller)
    → IsValid r
    → get_cached_rule k (remove_rule_from_cache n r)
      ≡ (if n == k then none else get_cached_rule k r)
unfolding remove_rule_from_cache get_cached_rule
get-remove n k r h = lookup-delete n k r.rule_cache h.is_map
