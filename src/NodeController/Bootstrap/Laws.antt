-- ===== src/NodeController/Bootstrap/Laws.antt =====
-- isBootstrapCompleted after markBootstrapCompleted.
use node_readiness_controlle.Prelude.{
  String, true, ◌≡◌, refl, contains_key, lookup-insert, eq_refl, arith, Bool-cases, inl, inr, ap,
  ◌∙◌,
}
use node_readiness_controlle.Api.{Node}
use node_readiness_controlle.Platform.{Result, ok, err, Client}
use node_readiness_controlle.Platform.Laws.{RetryLaw, NodeStoreLaw}
use node_readiness_controlle.Platform.Retry.{Retried-ok}
use node_readiness_controlle.NodeController.Bootstrap.{
  annotation_key, mark, to_unit, is_bootstrap_completed, mark_read, mark_attempt,
  mark_bootstrap_completed,
}

contains_key-mark :
    (key : String) (node : Node) → contains_key key (mark key node).annotations ≡ true
contains_key-mark key node =
    ground (arith, lookup-insert key key "true" node.annotations, eq_refl key)

module _ {W S : Type 0} (c : Client W S) (store : NodeStoreLaw c) (n : String)
    (rule_name : String) where
  -- The annotation is found in the world `w`.
  abbrev IsMarked : W → Type 0
  IsMarked w = (is_bootstrap_completed c n rule_name w).0 ≡ true

  IsMarked-of_get :
      (node : Node) (w : W)
      → (c.get_node n w).0 ≡ ok node
      → contains_key (annotation_key rule_name) node.annotations ≡ true
      → IsMarked w
  unfolding is_bootstrap_completed
  IsMarked-of_get node w e h = ground arith

  update_marks :
      (node : Node) (w : W) (p : Result Node × W)
      → c.update_node (mark (annotation_key rule_name) node) w ≡ p
      → node.name ≡ n
      → (to_unit p).0 ≡ ok tt
      → IsMarked (to_unit p).1
  update_marks node w (err e, w') q named done = cc
  update_marks node w (ok stored, w') q named done =
      let (found, kept) = store.update_node_stores _ stored w w' q in
      IsMarked-of_get stored w' (rw (← named) found) (
        ap (contains_key (annotation_key rule_name)) kept
        ∙ contains_key-mark (annotation_key rule_name) node)

  read_marks :
      (w : W) (p : Result Node × W)
      → c.get_node n w ≡ p
      → (mark_read c (annotation_key rule_name) p).0 ≡ ok tt
      → IsMarked (mark_read c (annotation_key rule_name) p).1
  read_marks w (err e, w') q = λ done. cc
  read_marks w (ok node, w') q =
      elim (Bool-cases (contains_key (annotation_key rule_name) node.annotations)) [
        | inl there ↦
            rw there (λ done. IsMarked-of_get node w' (store.get_node_again n node w w' q) there)
        | inr missing ↦ rw missing (update_marks node w' _ refl (store.get_node_name n node w w' q))
      ]

  attempt_marks :
      (w : W) → (mark_attempt c n rule_name w).0 ≡ ok tt → IsMarked (mark_attempt c n rule_name w).1
  unfolding mark_attempt
  attempt_marks w = read_marks w _ refl

  -- On a server that no other writer changes, and with a retry that calls again only after a
  -- conflict: if the retried update that marks a node reports no error, whatever number of
  -- conflicts came first, the rule then reads as completed for the node.
  pub mark_bootstrap_completed_marks :
      RetryLaw c
      → (w : W) → (c.retry_on_conflict (mark_attempt c n rule_name) w).0 ≡ ok tt
      → (is_bootstrap_completed c n rule_name (mark_bootstrap_completed c n rule_name w)).0 ≡ true
  unfolding mark_bootstrap_completed
  mark_bootstrap_completed_marks retries w done =
      Retried-ok c (mark_attempt c n rule_name) IsMarked attempt_marks _ w
        (retries (mark_attempt c n rule_name) w) done
