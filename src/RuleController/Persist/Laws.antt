-- ===== src/RuleController/Persist/Laws.antt =====
-- About updateRuleStatus: the status on the server after it.
use node_readiness_controlle.Prelude.{◌≡◌, refl, subst, ◌∙◌}
use node_readiness_controlle.Api.{NodeReadinessRule}
use node_readiness_controlle.Platform.{Result, ok, err, Client}
use node_readiness_controlle.Platform.Laws.{RetryLaw, RuleStoreLaw}
use node_readiness_controlle.Platform.Retry.{Retried-ok}
use node_readiness_controlle.NodeController.Bootstrap.{to_unit}
use node_readiness_controlle.RuleController.Persist.{
  merge_status, merge_latest, status_attempt, update_rule_status,
}

-- What is sent: our status, and all else from the latest version.
pub merge_status_lem :
    (rule latest : NodeReadinessRule)
    → ((merge_status rule latest).status ≡ rule.status)
      × ((merge_status rule latest).spec ≡ latest.spec)
      × ((merge_status rule latest).name ≡ latest.name)
      × ((merge_status rule latest).resource_version ≡ latest.resource_version)
      × ((merge_status rule latest).finalizers ≡ latest.finalizers)
unfolding merge_status
merge_status_lem rule latest = (refl, refl, refl, refl, refl)

module _ {W S : Type 0} (c : Client W S) (store : RuleStoreLaw c) (rule : NodeReadinessRule) where
  -- The server's version of the rule has our status.
  abbrev pub IsSaved : W → Type 0
  IsSaved w =
      (stored : NodeReadinessRule) × ((c.get_rule rule.name w).0 ≡ ok stored)
      × (stored.status ≡ rule.status)

  sent_saves :
      (latest : NodeReadinessRule) (w : W) (p : Result NodeReadinessRule × W)
      → latest.name ≡ rule.name
      → c.update_rule_status (merge_status rule latest) w ≡ p
      → (to_unit p).0 ≡ ok tt
      → IsSaved (to_unit p).1
  sent_saves latest w (err e, w') named q done = cc
  sent_saves latest w (ok stored, w') named q done =
      let (found, same) = store.update_status_stores (merge_status rule latest) stored w w' q in
      (
        stored,
        subst (λ n. (c.get_rule n w').0 ≡ ok stored) ((merge_status_lem rule latest).2 ∙ named)
            found,
        same ∙ (merge_status_lem rule latest).0,
      )

  merged_saves :
      (w : W) (p : Result NodeReadinessRule × W)
      → c.get_rule rule.name w ≡ p
      → (merge_latest c rule p).0 ≡ ok tt
      → IsSaved (merge_latest c rule p).1
  merged_saves w (err e, w') q done = cc
  merged_saves w (ok latest, w') q done =
      sent_saves latest w' _ (store.get_rule_name rule.name latest w w' q) refl done

  attempt_saves :
      (w : W) → (status_attempt c rule w).0 ≡ ok tt → IsSaved (status_attempt c rule w).1
  unfolding status_attempt
  attempt_saves w = merged_saves w _ refl

  -- On a server that no other writer changes, and with a retry that calls again only after a
  -- conflict: if the update of the status reports no error, whatever number of conflicts came
  -- first, the server's version of the rule has our status.
  pub update_rule_status_saves :
      RetryLaw c
      → (w : W) → (update_rule_status c rule w).0 ≡ ok tt
      → IsSaved (update_rule_status c rule w).1
  unfolding update_rule_status
  update_rule_status_saves retries w done =
      Retried-ok c (status_attempt c rule) IsSaved attempt_saves _ w
        (retries (status_attempt c rule) w) done
