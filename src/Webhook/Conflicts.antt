-- ===== src/Webhook/Conflicts.antt =====
-- validateTaintConflicts and nodSelectorsOverlap: rules that manage the same taint.
use node_readiness_controlle.Prelude.{Bool, true, ◌&&◌, List, [], ◌∷◌, ◌==◌, if◌then◌else◌}
use node_readiness_controlle.Prelude.Format.{concat}
use node_readiness_controlle.Api.{LabelSelector, NodeReadinessRule}
use node_readiness_controlle.Platform.{Result, ok, err, Client}
use node_readiness_controlle.Webhook.Spec.{FieldPath, FieldError, child, word, invalid}

abbrev pub taint_key_field : FieldPath
taint_key_field = child "spec" ∷ child "taint" ∷ child "key" ∷ []

abbrev pub conflict_error : NodeReadinessRule → NodeReadinessRule → FieldError
conflict_error rule existing = invalid taint_key_field (word rule.spec.taint.key) (
    concat (
      "conflicts with existing rule '" ∷ existing.name ∷ "' - same taint key '"
      ∷ rule.spec.taint.key ∷ "' and effect '" ∷ rule.spec.taint.effect
      ∷ "' with overlapping node selectors" ∷ []))

module _ {W S : Type 0} (c : Client W S) where
  abbrev pub same_text : Result S → Result S → Bool
  same_text (err e) r = true
  same_text (ok sel1) (err e) = true
  same_text (ok sel1) (ok sel2) = c.selector_string sel1 == c.selector_string sel2

  -- nodSelectorsOverlap: selectors that cannot be parsed count as overlapping.
  unfoldable pub node_selectors_overlap : LabelSelector → LabelSelector → Bool
  node_selectors_overlap selector1 selector2 =
      same_text (c.as_selector selector1) (c.as_selector selector2)

  -- The tests of one round of the loop: the rule itself is passed over on an update.
  abbrev pub conflicts : Bool → NodeReadinessRule → NodeReadinessRule → Bool
  conflicts is_update rule existing =
      if is_update && existing.name == rule.name
      then Bool.false
      else existing.spec.taint.key == rule.spec.taint.key
        && existing.spec.taint.effect == rule.spec.taint.effect
        && node_selectors_overlap rule.spec.node_selector existing.spec.node_selector

  unfoldable pub conflict_errors :
      NodeReadinessRule → Bool → List NodeReadinessRule → List FieldError
  conflict_errors rule is_update [] = []
  conflict_errors rule is_update (existing ∷ rest) =
      if conflicts is_update rule existing
      then conflict_error rule existing ∷ conflict_errors rule is_update rest
      else conflict_errors rule is_update rest

  -- Where the rules cannot be listed the operation is allowed.
  abbrev pub conflicts_listed :
      NodeReadinessRule → Bool → Result (List NodeReadinessRule) × W → List FieldError × W
  conflicts_listed rule is_update (err e, w) = ([], w)
  conflicts_listed rule is_update (ok rules, w) = (conflict_errors rule is_update rules, w)

  unfoldable pub validate_taint_conflicts : NodeReadinessRule → Bool → W → List FieldError × W
  validate_taint_conflicts rule is_update w = conflicts_listed rule is_update (c.list_rules w)
