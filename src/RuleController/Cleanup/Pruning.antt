-- ===== src/RuleController/Cleanup/Pruning.antt =====
-- The status entries of deleted nodes.
use node_readiness_controlle.Prelude.{
  String, true, List, [], ◌∷◌, ◌==◌, ◌≡◌, refl, subst, sym, arith, All, any_of, length,
  keep_if_full, nat_eq, Bool-cases, inl, inr,
}
use node_readiness_controlle.Api.{Node, NodeEvaluation, NodeReadinessRule, with_evaluations}
use node_readiness_controlle.Platform.{Result, ok, err, Client}
use node_readiness_controlle.Platform.Laws.{RetryLaw, RuleStoreLaw}
use node_readiness_controlle.Platform.Retry.{Retried-ok}
use node_readiness_controlle.NodeController.Bootstrap.{to_unit}
use node_readiness_controlle.RuleController.Cleanup.{
  existing_evaluations, prune_fresh, prune_attempt,
}

-- Every evaluation is of a listed node.
abbrev pub AllExist : List Node → List NodeEvaluation → Type 0
AllExist nodes = All (λ e. any_of (λ node. node.name == e.node_name) nodes ≡ true)

existing-AllExist :
    (nodes : List Node) (l : List NodeEvaluation) → AllExist nodes (existing_evaluations nodes l)
existing-AllExist nodes [] = tt
existing-AllExist nodes (e ∷ l) =
    elim (Bool-cases (any_of (λ node. node.name == e.node_name) nodes)) [
      | inl h ↦ rw h (h, existing-AllExist nodes l)
      | inr h ↦ rw h (existing-AllExist nodes l)
    ]

full-AllExist :
    (nodes : List Node) (l : List NodeEvaluation)
    → nat_eq (length (existing_evaluations nodes l)) (length l) ≡ true
    → AllExist nodes l
full-AllExist nodes l h =
    subst (AllExist nodes)
      (keep_if_full (λ e. any_of (λ node. node.name == e.node_name) nodes) l (ground arith))
      (existing-AllExist nodes l)

module _ {W S : Type 0} (c : Client W S) (store : RuleStoreLaw c) (nodes : List Node)
    (rule_name : String) where
  -- The server's version of the rule has evaluations of listed nodes only.
  abbrev pub IsPruned : W → Type 0
  IsPruned w =
      (stored : NodeReadinessRule) × ((c.get_rule rule_name w).0 ≡ ok stored)
      × AllExist nodes stored.status.node_evaluations

  sent-IsPruned :
      (fresh : NodeReadinessRule) (w : W) (p : Result NodeReadinessRule × W)
      → fresh.name ≡ rule_name
      → c.update_rule_status
          (with_evaluations fresh (existing_evaluations nodes fresh.status.node_evaluations))
          w
        ≡ p
      → (to_unit p).0 ≡ ok tt
      → IsPruned (to_unit p).1
  sent-IsPruned fresh w (err e, w') named q done = cc
  sent-IsPruned fresh w (ok stored, w') named q done =
      let (found, same) = store.update_status_stores _ stored w w' q in
      (
        stored,
        subst (λ n. (c.get_rule n w').0 ≡ ok stored) named found,
        subst (λ s. AllExist nodes s.node_evaluations) (sym same)
            (existing-AllExist nodes fresh.status.node_evaluations),
      )

  fresh-IsPruned :
      (w : W) (p : Result NodeReadinessRule × W)
      → c.get_rule rule_name w ≡ p
      → (prune_fresh c nodes p).0 ≡ ok tt
      → IsPruned (prune_fresh c nodes p).1
  fresh-IsPruned w (err e, w') q = λ done. cc
  fresh-IsPruned w (ok fresh, w') q =
      elim (Bool-cases (
        nat_eq (length (existing_evaluations nodes fresh.status.node_evaluations))
          (length fresh.status.node_evaluations))) [
            | inl full ↦ rw full (λ done. (
              fresh,
              store.get_rule_again rule_name fresh w w' q,
              full-AllExist nodes fresh.status.node_evaluations full,
            ))
            | inr short ↦
                rw short
                  (sent-IsPruned fresh w' _ (store.get_rule_name rule_name fresh w w' q) refl)
          ]

  -- On a server that no other writer changes, and with a retry that calls again only after a
  -- conflict: if the retried pruning reports no error, whatever number of conflicts came first,
  -- the server's version of the rule has no evaluation of a node outside the given list.
  pub prune_attempt_prunes :
      RetryLaw c
      → (w : W) → (c.retry_on_conflict (prune_attempt c nodes rule_name) w).0 ≡ ok tt
      → IsPruned (c.retry_on_conflict (prune_attempt c nodes rule_name) w).1
  unfolding prune_attempt
  prune_attempt_prunes retries w done =
      Retried-ok c (prune_attempt c nodes rule_name) IsPruned (λ v. fresh-IsPruned v _ refl) _ w
        (retries (prune_attempt c nodes rule_name) w) done
