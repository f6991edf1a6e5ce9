-- ===== src/RuleController/DryRun/Bounds.antt =====
-- About the counters of processDryRun: how they are bounded by each other.
use node_readiness_controlle.Prelude.{
  ℕ, some, sym, ◌∙◌, ◌+◌, ◌^◌, ◌≤◌, ◌<◌, List, [], ◌∷◌, ◌≡◌, arith, length, ap, count_of,
  count_of-le-length,
}
use node_readiness_controlle.Api.{Node, NodeReadinessRule}
use node_readiness_controlle.Platform.{ok, Client}
use node_readiness_controlle.RuleController.Cache.{rule_applies_to}
use node_readiness_controlle.RuleController.Process.Laws.{ok_injective}
use node_readiness_controlle.RuleController.DryRun.{process_dry_run}
use node_readiness_controlle.RuleController.DryRun.Counting.{
  would_add, would_remove, is_risky, process_dry_run_lem,
}

module _ {W S : Type 0} (c : Client W S) (rule : NodeReadinessRule) where
  changes-le :
      (nodes : List Node)
      → count_of (would_add c rule) nodes + count_of (would_remove c rule) nodes
        ≤ count_of (rule_applies_to c rule) nodes
  changes-le [] = omega arith
  changes-le (node ∷ rest) = ground (arith, changes-le rest)

  risky-le :
      (nodes : List Node)
      → count_of (is_risky c rule) nodes ≤ count_of (rule_applies_to c rule) nodes
  risky-le [] = omega arith
  risky-le (node ∷ rest) = ground (arith, risky-le rest)

  -- Where the nodes are listed, and with fewer than 2 ^ 31 nodes and fewer than 2 ^ 63 required
  -- conditions, the four counters that a dry run reports in the status are there and bounded:
  -- taintsToAdd and taintsToRemove together by affectedNodes, riskyOperations by affectedNodes,
  -- and affectedNodes by the number of listed nodes.
  pub process_dry_run_bounds :
      (nodes : List Node) (w w' w'' : W) (out : NodeReadinessRule)
      → c.list_nodes w ≡ (ok nodes, w')
      → length rule.spec.conditions < 2 ^ 63
      → length nodes < 2 ^ 31
      → process_dry_run c rule w ≡ (ok out, w'')
      → (affected to_add to_remove risky : ℕ) × (out.status.dry_run_results.affected_nodes
          ≡ some affected)
        × (out.status.dry_run_results.taints_to_add ≡ some to_add)
        × (out.status.dry_run_results.taints_to_remove ≡ some to_remove)
        × (out.status.dry_run_results.risky_operations ≡ some risky)
        × (to_add + to_remove ≤ affected)
        × (risky ≤ affected)
        × (affected ≤ length nodes)
  process_dry_run_bounds nodes w w' w'' out e few small run =
      let (text, found) = process_dry_run_lem c rule nodes w w' e few small in
      let given = ok_injective (ap (λ o. o.0) (sym found ∙ run)) in
      (
        _,
        _,
        _,
        _,
        ap (λ r. r.status.dry_run_results.affected_nodes) (sym given),
        ap (λ r. r.status.dry_run_results.taints_to_add) (sym given),
        ap (λ r. r.status.dry_run_results.taints_to_remove) (sym given),
        ap (λ r. r.status.dry_run_results.risky_operations) (sym given),
        changes-le nodes,
        risky-le nodes,
        count_of-le-length (rule_applies_to c rule) nodes,
      )
