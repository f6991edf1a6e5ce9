-- ===== src/NodeController/Process/Persisted.antt =====
-- About the retried function of processNodeAgainstAllRules that writes the evaluation of one node.
use node_readiness_controlle.Prelude.{
  String, true, false, List, [], ◌∷◌, ◌++◌, none, some, ◌==◌, ◌≡◌, ◌≢◌, refl, ap, subst, ◌∙◌, arith,
  eq_iff, keep_if, if◌then◌else◌, Bool-cases, ◌⊎◌, eq_refl, inl, inr,
}
use node_readiness_controlle.Api.{NodeEvaluation, NodeFailure, NodeReadinessRule}
use node_readiness_controlle.Platform.{Result, ok, err, Client}
use node_readiness_controlle.Platform.Laws.{RetryLaw, RuleStoreLaw}
use node_readiness_controlle.Platform.Retry.{Retried-ok}
use node_readiness_controlle.NodeController.Bootstrap.{to_unit}
use node_readiness_controlle.RuleController.Status.{other_failures}
use node_readiness_controlle.RuleController.Status.Laws.{
  find_evaluation, find_failure, find_failure-other_failures,
}
use node_readiness_controlle.NodeController.Process.{
  current_evaluation, overwrite_evaluation, has_evaluation, merge_node, persist_latest,
  persist_attempt,
}

find-overwrite :
    (n m : String) (curr : NodeEvaluation) (l : List NodeEvaluation)
    → curr.node_name ≡ n
    → has_evaluation n l ≡ true
    → find_evaluation m (overwrite_evaluation n curr l)
      ≡ (if n == m then some curr else find_evaluation m l)
unfolding overwrite_evaluation has_evaluation
find-overwrite n m curr [] named h = cc
find-overwrite n m curr (e ∷ l) named h = ground (
  arith,
  eq_iff e.node_name n,
  eq_iff e.node_name m,
  eq_iff n m,
  eq_iff curr.node_name m,
  find-overwrite n m curr l named,
)

current-find :
    (n : String) (l : List NodeEvaluation) (x : NodeEvaluation)
    → find_evaluation n l ≡ some x
    → (current_evaluation n l ≡ x) × (x.node_name ≡ n)
unfolding current_evaluation
current-find n [] x h = cc
current-find n (e ∷ l) x h = ground (arith, eq_iff e.node_name n, current-find n l x)

find_failure-own :
    (n : String) (l : List NodeFailure)
    → find_failure n (keep_if (λ f. f.node_name == n) l) ≡ find_failure n l
find_failure-own n [] = refl
find_failure-own n (e ∷ l) = ground (arith, find_failure-own n l)

find_failure-own_other :
    (n m : String) (l : List NodeFailure)
    → n ≢ m
    → find_failure m (keep_if (λ f. f.node_name == n) l) ≡ none
find_failure-own_other n m [] h = refl
find_failure-own_other n m (e ∷ l) h =
    ground (arith, eq_iff e.node_name n, eq_iff e.node_name m, find_failure-own_other n m l h)

find_failure-append :
    (m : String) (l r : List NodeFailure)
    → find_failure m (l ++ r)
      ≡ (elim (find_failure m l) [ none ↦ find_failure m r | some x ↦ some x ])
find_failure-append m [] r = refl
find_failure-append m (e ∷ l) r = ground (arith, find_failure-append m l r)

merged_failures :
    (n m : String) (ours latest : List NodeFailure)
    → find_failure m (other_failures n latest ++ keep_if (λ f. f.node_name == n) ours)
      ≡ (if n == m then find_failure m ours else find_failure m latest)
merged_failures n m ours latest = elim (Bool-cases (n == m)) [
  | inl same ↦ ground (
    arith,
    find_failure-append m (other_failures n latest) (keep_if (λ f. f.node_name == n) ours),
    find_failure-other_failures n m latest,
    subst (λ k. find_failure k (keep_if (λ f. f.node_name == n) ours) ≡ find_failure k ours)
        ((eq_iff n m).0 same) (find_failure-own n ours),
  )
  | inr apart ↦ ground (
    arith,
    eq_iff n m,
    find_failure-append m (other_failures n latest) (keep_if (λ f. f.node_name == n) ours),
    find_failure-other_failures n m latest,
    find_failure-own_other n m ours,
  )
]

-- Where the latest version has an evaluation of the node and ours has one too, the merged status
-- has our evaluation and our failure of that node, and the latest version's for every other node.
pub merge_node_lem :
    (n m : String) (rule latest : NodeReadinessRule) (x : NodeEvaluation)
    → has_evaluation n latest.status.node_evaluations ≡ true
    → find_evaluation n rule.status.node_evaluations ≡ some x
    → (find_evaluation m (merge_node n rule latest).status.node_evaluations
        ≡ (if n == m then some x else find_evaluation m latest.status.node_evaluations))
      × (find_failure m (merge_node n rule latest).status.failed_nodes ≡ (
          if n == m
          then find_failure m rule.status.failed_nodes
          else find_failure m latest.status.failed_nodes))
unfolding merge_node
merge_node_lem n m rule latest x had found = (
  ground (
    arith,
    (current-find n rule.status.node_evaluations x found).0,
    find-overwrite n m (current_evaluation n rule.status.node_evaluations)
        latest.status.node_evaluations
        (ap (λ e. e.node_name) (current-find n rule.status.node_evaluations x found).0
          ∙ (current-find n rule.status.node_evaluations x found).1)
        had,
  ),
  merged_failures n m rule.status.failed_nodes latest.status.failed_nodes,
)

merge_node_name :
    (n : String) (rule latest : NodeReadinessRule) → (merge_node n rule latest).name ≡ latest.name
unfolding merge_node
merge_node_name n rule latest = refl

module _ {W S : Type 0} (c : Client W S) (store : RuleStoreLaw c) (n : String)
    (rule : NodeReadinessRule) (x : NodeEvaluation)
    (found : find_evaluation n rule.status.node_evaluations ≡ some x) where
  -- The server's version of the rule has our evaluation and our failure of the node, or it has no
  -- evaluation of the node at all.
  abbrev pub IsPersisted : W → Type 0
  IsPersisted w =
      (stored : NodeReadinessRule) × ((c.get_rule rule.name w).0 ≡ ok stored)
      × (((find_evaluation n stored.status.node_evaluations ≡ some x)
            × (find_failure n stored.status.failed_nodes ≡ find_failure n rule.status.failed_nodes))
          ⊎ (has_evaluation n stored.status.node_evaluations ≡ false))

  sent-IsPersisted :
      (latest : NodeReadinessRule) (w : W) (p : Result NodeReadinessRule × W)
      → latest.name ≡ rule.name
      → has_evaluation n latest.status.node_evaluations ≡ true
      → c.update_rule_status (merge_node n rule latest) w ≡ p
      → (to_unit p).0 ≡ ok tt
      → IsPersisted (to_unit p).1
  sent-IsPersisted latest w (err e, w') named had q done = cc
  sent-IsPersisted latest w (ok stored, w') named had q done =
      let (there, same) = store.update_status_stores (merge_node n rule latest) stored w w' q in
      let (evaluation, failure) = merge_node_lem n n rule latest x had found in
      (
        stored,
        subst (λ k. (c.get_rule k w').0 ≡ ok stored) (merge_node_name n rule latest ∙ named) there,
        inl (
          ap (λ t. find_evaluation n t.node_evaluations) same
              ∙ evaluation
              ∙ ground (arith, eq_refl n),
          ap (λ t. find_failure n t.failed_nodes) same ∙ failure ∙ ground (arith, eq_refl n),
        ),
      )

  read-IsPersisted :
      (w : W) (p : Result NodeReadinessRule × W)
      → c.get_rule rule.name w ≡ p
      → (persist_latest c n rule p).0 ≡ ok tt
      → IsPersisted (persist_latest c n rule p).1
  read-IsPersisted w (err e, w') q = λ done. cc
  read-IsPersisted w (ok latest, w') q =
      elim (Bool-cases (has_evaluation n latest.status.node_evaluations)) [
        | inl had ↦
            rw had
              (sent-IsPersisted latest w' _ (store.get_rule_name rule.name latest w w' q) had refl)
        | inr new ↦ rw new (λ done. (latest, store.get_rule_again rule.name latest w w' q, inr new))
      ]

  attempt-IsPersisted :
      (w : W) → (persist_attempt c n rule w).0 ≡ ok tt → IsPersisted (persist_attempt c n rule w).1
  unfolding persist_attempt
  attempt-IsPersisted w = read-IsPersisted w _ refl

  -- On a server that no other writer changes, and with a retry that calls again only after a
  -- conflict: if our version has an evaluation of the node and the retried update of the status
  -- reports no error, whatever number of conflicts came first, then the server's version of the
  -- rule has our evaluation of the node and our failure of it, or it has no evaluation of the
  -- node at all.
  pub persist_attempt-IsPersisted :
      RetryLaw c
      → (w : W) → (c.retry_on_conflict (persist_attempt c n rule) w).0 ≡ ok tt
      → IsPersisted (c.retry_on_conflict (persist_attempt c n rule) w).1
  persist_attempt-IsPersisted retries w done =
      Retried-ok c (persist_attempt c n rule) IsPersisted attempt-IsPersisted _ w
        (retries (persist_attempt c n rule) w) done
