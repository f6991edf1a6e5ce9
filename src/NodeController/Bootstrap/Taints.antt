-- ===== src/NodeController/Bootstrap/Taints.antt =====
-- About markBootstrapCompleted: the taints on the server after it.
use node_readiness_controlle.Prelude.{
  String, Option, some, ◌≡◌, ◌≢◌, refl, sym, ap, subst, ◌∙◌, arith, eq_iff, ◌==◌, contains_key,
  Bool-cases, inl, inr,
}
use node_readiness_controlle.Api.{Node}
use node_readiness_controlle.Platform.{Result, ok, err, Client}
use node_readiness_controlle.Platform.Laws.{RetryLaw, NodeWriteLaw}
use node_readiness_controlle.Platform.Retry.{Retried_inv}
use node_readiness_controlle.NodeController.Taints.Stored.{read_node, IsOfTaints}
use node_readiness_controlle.NodeController.Bootstrap.{
  annotation_key, mark, to_unit, mark_read, mark_attempt, mark_bootstrap_completed,
}

module _ {W S : Type 0} (c : Client W S) {A : Type 0} (f : Node → A)
    (of_taints : IsOfTaints f) where
  -- What is seen of the node of a name.
  abbrev pub view : String → W → Option A
  view n w = read_node f (c.get_node n w).0

  -- The views of two worlds agree on the name.
  same_view : {n : String} {v w : W} → (c.get_node n v).0 ≡ (c.get_node n w).0 → view n v ≡ view n w
  same_view e = ap (read_node f) e

  module _ (writes : NodeWriteLaw c) (m rule_name n : String) where
    stored_view :
        (node stored : Node) (w w' : W)
        → c.update_node (mark (annotation_key rule_name) node) w ≡ (ok stored, w')
        → (c.get_node node.name w).0 ≡ ok node
        → view node.name w' ≡ view node.name w
    stored_view node stored w w' q current =
        let (found, same) = writes.update_node_taints _ stored w w' q in
        ap (read_node f) found
        ∙ ap some (of_taints stored node same)
        ∙ sym (ap (read_node f) current)

    update_keeps :
        (node : Node) (w : W) (p : Result Node × W)
        → c.update_node (mark (annotation_key rule_name) node) w ≡ p
        → (c.get_node node.name w).0 ≡ ok node
        → view n (to_unit p).1 ≡ view n w
    update_keeps node w (err e, w') q current = same_view (writes.update_node_fails _ n e w w' q)
    update_keeps node w (ok stored, w') q current = elim (Bool-cases (node.name == n)) [
      | inl same ↦
          subst (λ k. view k w' ≡ view k w) ((eq_iff node.name n).0 same)
            (stored_view node stored w w' q current)
      | inr apart ↦ same_view (
          ap (λ o. (c.get_node n o.1).0) (sym q)
          ∙ writes.update_node_others _ n w (λ e. ground (arith, eq_iff node.name n)))
    ]

    read_keeps :
        (w : W) (p : Result Node × W)
        → c.get_node m w ≡ p
        → view n (mark_read c (annotation_key rule_name) p).1 ≡ view n w
    read_keeps w (err e, w') q =
        same_view (ap (λ v. (c.get_node n v).0) (ap (λ o. o.1) (sym q) ∙ writes.get_node_reads m w))
    read_keeps w (ok node, w') q =
        let stays : w' ≡ w = ap (λ o. o.1) (sym q) ∙ writes.get_node_reads m w in
        elim (Bool-cases (contains_key (annotation_key rule_name) node.annotations)) [
          | inl there ↦ rw there (ap (view n) stays)
          | inr missing ↦ rw missing (
              update_keeps node w' _ refl (
                ap (λ k. (c.get_node k w').0) (writes.get_node_name m node w w' q)
                ∙ ap (λ v. (c.get_node m v).0) stays
                ∙ ap (λ o. o.0) q)
              ∙ ap (view n) stays)
        ]

    -- Marking leaves all that the taints decide as it was.
    pub view-mark_bootstrap_completed :
        RetryLaw c → (w : W) → view n (mark_bootstrap_completed c m rule_name w) ≡ view n w
    unfolding mark_bootstrap_completed mark_attempt
    view-mark_bootstrap_completed retries w =
        Retried_inv c (mark_attempt c m rule_name) (λ v. view n v ≡ view n w)
          (λ v h. read_keeps v _ refl ∙ h) _ w (retries (mark_attempt c m rule_name) w) refl

module _ {W S : Type 0} (c : Client W S) where
  module _ (writes : NodeWriteLaw c) (m rule_name n : String) (apart : m ≢ n) where
    to_unit_world : {A : Type 0} (p : Result A × W) → (to_unit p).1 ≡ p.1
    to_unit_world (ok a, w) = refl
    to_unit_world (err e, w) = refl

    read_others :
        (w : W) (p : Result Node × W)
        → c.get_node m w ≡ p
        → (c.get_node n (mark_read c (annotation_key rule_name) p).1).0 ≡ (c.get_node n w).0
    read_others w (err e, w') q =
        ap (λ v. (c.get_node n v).0) (ap (λ o. o.1) (sym q) ∙ writes.get_node_reads m w)
    read_others w (ok node, w') q =
        let stays : w' ≡ w = ap (λ o. o.1) (sym q) ∙ writes.get_node_reads m w in
        elim (Bool-cases (contains_key (annotation_key rule_name) node.annotations)) [
          | inl there ↦ rw there (ap (λ v. (c.get_node n v).0) stays)
          | inr missing ↦ rw missing (
              ap (λ v. (c.get_node n v).0)
                (to_unit_world (c.update_node (mark (annotation_key rule_name) node) w'))
              ∙ writes.update_node_others _ n w'
                  (λ e. apart (sym (writes.get_node_name m node w w' q) ∙ e))
              ∙ ap (λ v. (c.get_node n v).0) stays)
        ]

    -- Marking a node leaves every other node on the server as it was.
    pub mark_bootstrap_completed_others :
        RetryLaw c
        → (w : W) → (c.get_node n (mark_bootstrap_completed c m rule_name w)).0 ≡ (c.get_node n w).0
    unfolding mark_bootstrap_completed mark_attempt
    mark_bootstrap_completed_others retries w =
        Retried_inv c (mark_attempt c m rule_name) (λ v. (c.get_node n v).0 ≡ (c.get_node n w).0)
          (λ v h. read_others v _ refl ∙ h) _ w (retries (mark_attempt c m rule_name) w) refl
