-- ===== src/RuleController/DryRun/Counting.antt =====
-- The counters of a dry run against the nodes that a real evaluation would change.
use node_readiness_controlle.Prelude.{
  ℕ, suc, String, some, ◌+◌, ◌^◌, ◌<◌, Bool, true, false, not, ◌&&◌, List, [], ◌∷◌, ◌==◌, ◌≡◌, refl,
  arith, length, count_of, count_of-le-length, any_of, if◌then◌else◌, Bool-cases, inl, inr,
}
use node_readiness_controlle.Api.{Node, ConditionRequirement, NodeReadinessRule, condition_unknown}
use node_readiness_controlle.Platform.{Client, ok}
use node_readiness_controlle.NodeController.Taints.{has_taint_by_spec}
use node_readiness_controlle.NodeController.Conditions.{get_condition_status}
use node_readiness_controlle.RuleController.Cache.{rule_applies_to}
use node_readiness_controlle.RuleController.Evaluate.Conditions.{meets_all}
use node_readiness_controlle.RuleController.DryRun.{
  Counts, zero_counts, increment_32, increment_64, is_positive_64, simulate_conditions, count_node,
  count_nodes, process_dry_run, with_dry_run_results, results_of,
}

-- How many requirements name a condition whose status is unknown or missing.
abbrev pub unknown_conditions : Node → List ConditionRequirement → ℕ
unknown_conditions node =
    count_of (λ req. get_condition_status node req.cond_type == condition_unknown)

next_64 : (m : ℕ) → m < 2 ^ 63 → increment_64 m ≡ suc m
next_64 m h = omega arith

next_32 : (m : ℕ) → m < 2 ^ 31 → increment_32 m ≡ suc m
next_32 m h = omega arith

count_of_pos :
    {A : Type 0} (p : A → Bool) (l : List A)
    → length l < 2 ^ 63
    → is_positive_64 (count_of p l) ≡ any_of p l
count_of_pos p [] h = refl
count_of_pos p (x ∷ l) h = elim (Bool-cases (p x)) [
  | inl e ↦ ground (arith, count_of-le-length p l)
  | inr e ↦ ground (arith, count_of_pos p l)
]

simulate_conditions_from :
    (node : Node) (reqs : List ConditionRequirement) (all_satisfied : Bool) (missing : ℕ)
    → missing + length reqs < 2 ^ 63
    → simulate_conditions node reqs all_satisfied missing
      ≡ (all_satisfied && meets_all node reqs, missing + unknown_conditions node reqs)
unfolding simulate_conditions meets_all
simulate_conditions_from node [] a missing h = ground arith
simulate_conditions_from node (req ∷ rest) a missing h =
    elim (Bool-cases (get_condition_status node req.cond_type == condition_unknown)) [
      | inl unknown ↦ ground (
        arith,
        simulate_conditions_from node rest
            (if get_condition_status node req.cond_type == req.required_status then a else false)
            (suc missing),
        next_64 missing,
      )
      | inr known ↦ ground (
        arith,
        simulate_conditions_from node rest
            (if get_condition_status node req.cond_type == req.required_status then a else false)
            missing,
      )
    ]

module _ {W S : Type 0} (c : Client W S) (rule : NodeReadinessRule) where
  -- What a real evaluation would do to a node.
  abbrev pub would_add : Node → Bool
  would_add node =
      rule_applies_to c rule node
      && not (meets_all node rule.spec.conditions)
      && not (has_taint_by_spec node rule.spec.taint)

  abbrev pub would_remove : Node → Bool
  would_remove node =
      rule_applies_to c rule node
      && meets_all node rule.spec.conditions
      && has_taint_by_spec node rule.spec.taint

  -- A node that the rule applies to and where a required condition is unknown or missing.
  abbrev pub is_risky : Node → Bool
  is_risky node =
      rule_applies_to c rule node
      && any_of (λ req. get_condition_status node req.cond_type == condition_unknown)
          rule.spec.conditions

  -- The counters of the nodes of a list, starting from `n`.
  abbrev pub counted : List Node → Counts → Counts
  counted nodes n = record {
    affected = n.affected + count_of (rule_applies_to c rule) nodes;
    to_add = n.to_add + count_of would_add nodes;
    to_remove = n.to_remove + count_of would_remove nodes;
    risky = n.risky + count_of is_risky nodes;
  }

  pub count_node_lem :
      (node : Node) (n : Counts)
      → length rule.spec.conditions < 2 ^ 63
      → n.affected < 2 ^ 31
      → n.to_add < 2 ^ 31
      → n.to_remove < 2 ^ 31
      → n.risky < 2 ^ 31
      → rule_applies_to c rule node ≡ true
      → count_node rule node n ≡ counted (node ∷ []) n
  unfolding count_node
  count_node_lem node n few ha hb hr hk applies = ground (
    arith,
    applies,
    simulate_conditions_from node rule.spec.conditions true 0 (omega arith),
    count_of_pos (λ req. get_condition_status node req.cond_type == condition_unknown)
        rule.spec.conditions few,
    next_32 n.affected ha,
    next_32 n.to_add hb,
    next_32 n.to_remove hr,
    next_32 n.risky hk,
  )

  count_nodes_from :
      (nodes : List Node) (n : Counts)
      → length rule.spec.conditions < 2 ^ 63
      → n.affected + length nodes < 2 ^ 31
      → n.to_add + length nodes < 2 ^ 31
      → n.to_remove + length nodes < 2 ^ 31
      → n.risky + length nodes < 2 ^ 31
      → count_nodes c rule nodes n ≡ counted nodes n
  unfolding count_nodes
  count_nodes_from [] n few ha hb hr hk = ground arith
  count_nodes_from (node ∷ rest) n few ha hb hr hk =
      elim (Bool-cases (rule_applies_to c rule node)) [
        | inl e ↦
            rw
              (
                e,
                count_node_lem node n few (omega arith) (omega arith) (omega arith) (omega arith) e,
              )
              (ground (
                arith,
                e,
                count_nodes_from rest (counted (node ∷ []) n) few (ground arith) (ground arith)
                    (ground arith) (ground arith),
              ))
        | inr e ↦ ground (
          arith,
          e,
          count_nodes_from rest n few (omega arith) (omega arith) (omega arith) (omega arith),
        )
      ]

  -- With fewer than 2 ^ 31 nodes and 2 ^ 63 conditions no counter overflows, and the counters are
  -- the numbers of nodes that a real evaluation would taint, would untaint, or finds unknown.
  pub count_nodes_lem :
      (nodes : List Node)
      → length rule.spec.conditions < 2 ^ 63
      → length nodes < 2 ^ 31
      → count_nodes c rule nodes zero_counts ≡ record {
        affected = count_of (rule_applies_to c rule) nodes;
        to_add = count_of would_add nodes;
        to_remove = count_of would_remove nodes;
        risky = count_of is_risky nodes;
      }
  count_nodes_lem nodes few h = ground (
    arith,
    count_nodes_from nodes zero_counts few (omega arith) (omega arith) (omega arith) (omega arith),
  )

  pub process_dry_run_counted :
      (nodes : List Node) (w w' : W)
      → c.list_nodes w ≡ (ok nodes, w')
      → length rule.spec.conditions < 2 ^ 63
      → length nodes < 2 ^ 31
      → process_dry_run c rule w ≡ (
        ok (
            with_dry_run_results rule (
              results_of (record {
                affected = count_of (rule_applies_to c rule) nodes;
                to_add = count_of would_add nodes;
                to_remove = count_of would_remove nodes;
                risky = count_of is_risky nodes;
              }))),
        w',
      )
  unfolding process_dry_run
  process_dry_run_counted nodes w w' e few h = rw (e, count_nodes_lem nodes few h)

  -- Where the nodes are listed, and with fewer than 2 ^ 31 nodes and fewer than 2 ^ 63 required
  -- conditions, the dry run makes no call but the listing, and changes only the dry run results
  -- of the rule: affectedNodes is the number of listed nodes that the rule applies to,
  -- taintsToAdd of those that also miss a requirement and lack the taint, taintsToRemove of those
  -- that meet all and have it, and riskyOperations of those that have a required condition with
  -- status Unknown, be it reported so or not found.
  pub process_dry_run_lem :
      (nodes : List Node) (w w' : W)
      → c.list_nodes w ≡ (ok nodes, w')
      → length rule.spec.conditions < 2 ^ 63
      → length nodes < 2 ^ 31
      → (text : String) × (process_dry_run c rule w ≡ (
        ok (record rule {
          status = record (rule.status) {
            dry_run_results = record {
              affected_nodes = some (count_of (rule_applies_to c rule) nodes);
              taints_to_add = some (count_of would_add nodes);
              taints_to_remove = some (count_of would_remove nodes);
              risky_operations = some (count_of is_risky nodes);
              summary = text;
            };
          };
        }),
        w',
      ))
  process_dry_run_lem nodes w w' e few h = (_, process_dry_run_counted nodes w w' e few h)
