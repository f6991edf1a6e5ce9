-- ===== src/RuleController/DryRun/Summary.antt =====
-- About the summary of processDryRun: when it says that nothing would change.
use node_readiness_controlle.Prelude.{
  ℕ, ◌^◌, ◌<◌, String, Bool, true, false, List, [], ◌∷◌, ◌≡◌, ◌↔◌, refl, ap, sym, ◌∙◌, arith,
  length, count_of, count_of-le-length, All,
}
use node_readiness_controlle.Prelude.Format.{concat, show_int32}
use node_readiness_controlle.Prelude.Endings.{HasEnd, append-HasEnd, join-HasEnd, s_or_d}
use node_readiness_controlle.Api.{Node, NodeReadinessRule}
use node_readiness_controlle.Platform.{ok, Client}
use node_readiness_controlle.RuleController.Cache.{rule_applies_to}
use node_readiness_controlle.RuleController.DryRun.{
  Counts, part, is_positive_32, summary_parts, summary_text, results_of, with_dry_run_results,
  process_dry_run,
}
use node_readiness_controlle.RuleController.DryRun.Counting.{
  would_add, would_remove, is_risky, process_dry_run_counted,
}

-- Every part that is shown ends in "s", and the text for no parts ends in "d".
part-All :
    (shown : Bool) (text parts : List String)
    → HasEnd "s" (concat text)
    → All (HasEnd "s") parts
    → All (HasEnd "s") (part shown text parts)
part-All false text parts e all = all
part-All true text [] e all = (e, tt)
part-All true text (p ∷ parts) e all = (all.0, part-All true text parts e all.1)

part_iff :
    (shown : Bool) (text parts : List String)
    → (part shown text parts ≡ []) ↔ ((shown ≡ false) × (parts ≡ []))
part_iff false text parts = (λ e. (refl, e), λ h. h.1)
part_iff true text [] = (λ e. cc, λ h. cc)
part_iff true text (p ∷ parts) = (λ e. cc, λ h. cc)

added-HasEnd : (n : ℕ) → HasEnd "s" (concat ("would add " ∷ show_int32 n ∷ " taints" ∷ []))
unfolding concat
added-HasEnd n =
    append-HasEnd "s" "would add " _ (append-HasEnd "s" (show_int32 n) " taints" (" taint", refl))

removed-HasEnd : (n : ℕ) → HasEnd "s" (concat ("would remove " ∷ show_int32 n ∷ " taints" ∷ []))
unfolding concat
removed-HasEnd n =
    append-HasEnd "s" "would remove " _
      (append-HasEnd "s" (show_int32 n) " taints" (" taint", refl))

missing-HasEnd :
    (n : ℕ) → HasEnd "s" (concat (show_int32 n ∷ " nodes have missing conditions" ∷ []))
unfolding concat
missing-HasEnd n =
    append-HasEnd "s" (show_int32 n) " nodes have missing conditions"
      (" nodes have missing condition", refl)

summary_parts-All : (n : Counts) → All (HasEnd "s") (summary_parts n)
unfolding summary_parts
summary_parts-All n = part-All (is_positive_32 n.risky) _ _ (missing-HasEnd n.risky) (
    part-All (is_positive_32 n.to_remove) _ _ (removed-HasEnd n.to_remove)
      (part-All (is_positive_32 n.to_add) _ [] (added-HasEnd n.to_add) tt))

summary_text_iff :
    (parts : List String)
    → All (HasEnd "s") parts
    → (summary_text parts ≡ "No changes needed") ↔ (parts ≡ [])
unfolding summary_text
summary_text_iff [] all = (λ e. refl, λ e. refl)
summary_text_iff (p ∷ parts) all =
    let (t, h) = join-HasEnd "s" ", " p parts all in
    (λ e. absurd (s_or_d t "No changes neede" (sym h ∙ e)), λ e. cc)

summary_parts_iff :
    (n : Counts)
    → n.to_add < 2 ^ 31
    → n.to_remove < 2 ^ 31
    → n.risky < 2 ^ 31
    → (summary_parts n ≡ []) ↔ ((n.to_add ≡ 0) × (n.to_remove ≡ 0) × (n.risky ≡ 0))
unfolding summary_parts
summary_parts_iff n a r m =
    let add =
      part_iff (is_positive_32 n.to_add) ("would add " ∷ show_int32 n.to_add ∷ " taints" ∷ []) [] in
    let remove =
      part_iff (is_positive_32 n.to_remove)
        ("would remove " ∷ show_int32 n.to_remove ∷ " taints" ∷ []) _ in
    let missing =
      part_iff (is_positive_32 n.risky) (show_int32 n.risky ∷ " nodes have missing conditions" ∷ [])
        _ in
    (
      λ e.
          let (risky, rest) = missing.0 e in
          let (removed, rest') = remove.0 rest in
          let (added, _) = add.0 rest' in (ground arith, ground arith, ground arith),
      λ h.
          missing.1
            (ground (arith, h), remove.1 (ground (arith, h), add.1 (ground (arith, h), refl))),
    )

count_of_zero :
    {A : Type 0} (p : A → Bool) (l : List A) → (count_of p l ≡ 0) ↔ All (λ x. p x ≡ false) l
count_of_zero p [] = (λ e. tt, λ h. refl)
count_of_zero p (x ∷ l) =
    let (to, from) = count_of_zero p l in (λ e. ground (arith, to), λ h. ground (arith, from h.1))

module _ {W S : Type 0} (c : Client W S) (rule : NodeReadinessRule) where
  -- Where the nodes are listed, and with fewer than 2 ^ 31 nodes and fewer than 2 ^ 63 required
  -- conditions: the summary of a dry run is the text "No changes needed" exactly when an
  -- evaluation would taint or untaint none of the listed nodes and none that the rule applies to
  -- has a required condition with status Unknown.
  pub process_dry_run_summary :
      (nodes : List Node) (w w' w'' : W) (out : NodeReadinessRule)
      → c.list_nodes w ≡ (ok nodes, w')
      → length rule.spec.conditions < 2 ^ 63
      → length nodes < 2 ^ 31
      → process_dry_run c rule w ≡ (ok out, w'')
      → (out.status.dry_run_results.summary ≡ "No changes needed") ↔ (
          All (λ node. would_add c rule node ≡ false) nodes
          × All (λ node. would_remove c rule node ≡ false) nodes
          × All (λ node. is_risky c rule node ≡ false) nodes)
  process_dry_run_summary nodes w w' w'' out e few small run =
      let n : Counts = record {
        affected = count_of (rule_applies_to c rule) nodes;
        to_add = count_of (would_add c rule) nodes;
        to_remove = count_of (would_remove c rule) nodes;
        risky = count_of (is_risky c rule) nodes;
      } in
      let given : with_dry_run_results rule (results_of n) ≡ out =
        cc (process_dry_run_counted c rule nodes w w' e few small, run) in
      let text = summary_text_iff (summary_parts n) (summary_parts-All n) in
      let parts =
        summary_parts_iff n (omega (arith, small, count_of-le-length (would_add c rule) nodes))
          (omega (arith, small, count_of-le-length (would_remove c rule) nodes))
          (omega (arith, small, count_of-le-length (is_risky c rule) nodes)) in
      let add = count_of_zero (would_add c rule) nodes in
      let remove = count_of_zero (would_remove c rule) nodes in
      let risky = count_of_zero (is_risky c rule) nodes in
      let said = ap (λ o. o.status.dry_run_results.summary) given in
      (
        λ s.
            let zero = parts.0 (text.0 (said ∙ s)) in
            (add.0 zero.0, remove.0 zero.1, risky.0 zero.2),
        λ h. sym said ∙ text.1 (parts.1 (add.1 h.0, remove.1 h.1, risky.1 h.2)),
      )
