-- ===== src/RuleController/DryRun.antt =====
-- processDryRun: what a rule would do to the nodes, counted and summed up in a text.
pub mod Counting
pub mod Bounds
pub mod Summary
pub mod Agreement
use node_readiness_controlle.Prelude.{
  ℕ, ◌+◌, ◌%◌, ◌^◌, String, Bool, true, false, not, ◌&&◌, List, [], ◌∷◌, ◌++◌, some, ◌==◌, ◌!=◌,
  ltb, if◌then◌else◌,
}
use node_readiness_controlle.Prelude.Format.{concat, join, show_int32}
use node_readiness_controlle.Api.{
  Node, ConditionRequirement, NodeReadinessRule, DryRunResults, condition_unknown,
}
use node_readiness_controlle.Platform.{Result, ok, err, Client}
use node_readiness_controlle.NodeController.Taints.{has_taint_by_spec}
use node_readiness_controlle.NodeController.Conditions.{get_condition_status}
use node_readiness_controlle.RuleController.Cache.{rule_applies_to}

-- The four int32 counters of the loop, as bit patterns.
pub record Counts : Type 0 where
  pub affected : ℕ
  pub to_add : ℕ
  pub to_remove : ℕ
  pub risky : ℕ

abbrev pub zero_counts : Counts
zero_counts = record { affected = 0; to_add = 0; to_remove = 0; risky = 0 }

-- `n++` on an int32, and on an int of 64 bits.
abbrev pub increment_32 : ℕ → ℕ
increment_32 n = (n + 1) % 2 ^ 32

abbrev pub increment_64 : ℕ → ℕ
increment_64 n = (n + 1) % 2 ^ 64

-- `n > 0` on the bit pattern of an int32, and of an int of 64 bits.
abbrev pub is_positive_32 : ℕ → Bool
is_positive_32 n = ltb 0 n && ltb n (2 ^ 31)

abbrev pub is_positive_64 : ℕ → Bool
is_positive_64 n = ltb 0 n && ltb n (2 ^ 63)

-- The inner loop, with its variables allConditionsSatisfied and missingConditions.
unfoldable pub simulate_conditions : Node → List ConditionRequirement → Bool → ℕ → Bool × ℕ
simulate_conditions node [] all_satisfied missing = (all_satisfied, missing)
simulate_conditions node (req ∷ rest) all_satisfied missing =
    let current = get_condition_status node req.cond_type in
    simulate_conditions node rest (if current != req.required_status then false else all_satisfied)
      (if current == condition_unknown then increment_64 missing else missing)

-- The counters after a node that the rule applies to.
unfoldable pub count_node : NodeReadinessRule → Node → Counts → Counts
count_node rule node n =
    let (all_satisfied, missing) = simulate_conditions node rule.spec.conditions true 0 in
    let has = has_taint_by_spec node rule.spec.taint in
    record {
      affected = increment_32 n.affected;
      to_add =
          if all_satisfied && has
          then n.to_add
          else if not all_satisfied && not has
          then increment_32 n.to_add
          else n.to_add;
      to_remove = if all_satisfied && has then increment_32 n.to_remove else n.to_remove;
      risky = if is_positive_64 missing then increment_32 n.risky else n.risky;
    }

abbrev pub part : Bool → List String → List String → List String
part shown text parts = if shown then parts ++ concat text ∷ [] else parts

-- The texts of summaryParts.
unfoldable pub summary_parts : Counts → List String
summary_parts n =
    part (is_positive_32 n.risky) (show_int32 n.risky ∷ " nodes have missing conditions" ∷ []) (
      part (is_positive_32 n.to_remove) ("would remove " ∷ show_int32 n.to_remove ∷ " taints" ∷ [])
        (part (is_positive_32 n.to_add) ("would add " ∷ show_int32 n.to_add ∷ " taints" ∷ []) []))

unfoldable pub summary_text : List String → String
summary_text [] = "No changes needed"
summary_text (p ∷ parts) = join ", " (p ∷ parts)

abbrev pub results_of : Counts → DryRunResults
results_of n = record {
  affected_nodes = some n.affected;
  taints_to_add = some n.to_add;
  taints_to_remove = some n.to_remove;
  risky_operations = some n.risky;
  summary = summary_text (summary_parts n);
}

abbrev pub with_dry_run_results : NodeReadinessRule → DryRunResults → NodeReadinessRule
with_dry_run_results rule results = record rule {
  status = record (rule.status) { dry_run_results = results };
}

module _ {W S : Type 0} (c : Client W S) where
  -- The loop over the nodes.
  unfoldable pub count_nodes : NodeReadinessRule → List Node → Counts → Counts
  count_nodes rule [] n = n
  count_nodes rule (node ∷ rest) n =
      count_nodes rule rest (if rule_applies_to c rule node then count_node rule node n else n)

  abbrev pub dry_run_listed :
      NodeReadinessRule → Result (List Node) × W → Result NodeReadinessRule × W
  dry_run_listed rule (ok nodes, w) =
      (ok (with_dry_run_results rule (results_of (count_nodes rule nodes zero_counts))), w)
  dry_run_listed rule (err e, w) = (err e, w)

  unfoldable pub process_dry_run : NodeReadinessRule → W → Result NodeReadinessRule × W
  process_dry_run rule w = dry_run_listed rule (c.list_nodes w)
