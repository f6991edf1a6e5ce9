-- ===== src/Webhook/Accept.antt =====
-- About ValidateCreate and ValidateUpdate: which rules the validator admits.
use mathlib.Core.List.{append-nil}
use node_readiness_controlle.Prelude.{
  String, Bool, true, false, List, [], ◌∷◌, ◌++◌, ◌≡◌, ◌↔◌, refl, arith, All,
}
use node_readiness_controlle.Api.{NodeReadinessRule}
use node_readiness_controlle.Platform.{Error, ok, err, Client}
use node_readiness_controlle.Webhook.Spec.{FieldError, validate_spec}
use node_readiness_controlle.Webhook.Conflicts.{conflict_errors, validate_taint_conflicts}
use node_readiness_controlle.Webhook.Admission.{
  Object, rule_object, validate_node_readiness_rule, admit, validate_object, validate_create,
  validate_update,
}
use node_readiness_controlle.Webhook.Verdict.{
  IsWellFormed, Clashes, append-eq-nil, validate_spec_iff, no_conflict_errors,
}

module _ {W S : Type 0} (c : Client W S) (show_errors : List FieldError → String) where
  admitted : (p : List FieldError × W) → (admit c show_errors p).0 ≡ ok tt → p.0 ≡ []
  admitted ([], w) h = refl
  admitted (e ∷ errors, w) h = cc

  admits : (p : List FieldError × W) → p.0 ≡ [] → (admit c show_errors p).0 ≡ ok tt
  admits ([], w) h = refl
  admits (e ∷ errors, w) h = cc

  module _ (rule : NodeReadinessRule) (w w' : W) where
    validate_listed :
        (is_update : Bool) (rules : List NodeReadinessRule)
        → c.list_rules w ≡ (ok rules, w')
        → (validate_node_readiness_rule c show_errors rule is_update w).0
          ≡ validate_spec c rule.spec ++ conflict_errors c rule is_update rules
    unfolding validate_node_readiness_rule validate_taint_conflicts
    validate_listed is_update rules e = ground arith

    object_iff :
        (is_update : Bool) (rules : List NodeReadinessRule)
        → c.list_rules w ≡ (ok rules, w')
        → ((validate_object c show_errors is_update (rule_object rule) w).0 ≡ ok tt)
          ↔ (IsWellFormed c rule.spec × All (λ existing. ¬ Clashes c is_update rule existing) rules)
    object_iff is_update rules e = (
      λ h.
          let none_found = admitted _ h in
          let (spec_ok, no_clash) =
            append-eq-nil _ _ (cc (validate_listed is_update rules e, none_found)) in
          (
            (validate_spec_iff c rule.spec).0 spec_ok,
            (no_conflict_errors c rule is_update rules).0 no_clash,
          ),
      λ h. admits _ (
          ground (
            arith,
            validate_listed is_update rules e,
            (validate_spec_iff c rule.spec).1 h.0,
            (no_conflict_errors c rule is_update rules).1 h.1,
          )),
    )

    -- Where the rules are listed, a new rule is admitted exactly when its spec is well formed
    -- (some conditions, each with a type and a status, a selector that parses and is not empty, a
    -- taint with a key and an effect, a known mode) and no listed rule has the same taint key and
    -- effect and a selector with the same text, or one that does not parse.
    pub validate_create_iff :
        (rules : List NodeReadinessRule)
        → c.list_rules w ≡ (ok rules, w')
        → ((validate_create c show_errors (rule_object rule) w).0 ≡ ok tt)
          ↔ (IsWellFormed c rule.spec × All (λ existing. ¬ Clashes c false rule existing) rules)
    unfolding validate_create
    validate_create_iff = object_iff false

    -- Where the rules are listed, a changed rule is admitted exactly when its spec is well formed
    -- and no listed rule of another name has the same taint key and effect and a selector with
    -- the same text, or one that does not parse.
    pub validate_update_iff :
        (old : Object) (rules : List NodeReadinessRule)
        → c.list_rules w ≡ (ok rules, w')
        → ((validate_update c show_errors old (rule_object rule) w).0 ≡ ok tt)
          ↔ (IsWellFormed c rule.spec × All (λ existing. ¬ Clashes c true rule existing) rules)
    unfolding validate_update
    validate_update_iff old = object_iff true

    unlisted :
        (e : Error)
        → c.list_rules w ≡ (err e, w')
        → (validate_node_readiness_rule c show_errors rule false w).0 ≡ validate_spec c rule.spec
    unfolding validate_node_readiness_rule validate_taint_conflicts
    unlisted e listed = ground (arith, append-nil (validate_spec c rule.spec))

    -- Where the rules cannot be listed, a new rule is admitted exactly when its spec is well
    -- formed, whatever rules there are.
    validate_create_unlisted :
        (e : Error)
        → c.list_rules w ≡ (err e, w')
        → ((validate_create c show_errors (rule_object rule) w).0 ≡ ok tt)
          ↔ IsWellFormed c rule.spec
    unfolding validate_create
    validate_create_unlisted e listed = (
      λ h. (validate_spec_iff c rule.spec).0 (cc (admitted _ h, unlisted e listed)),
      λ h. admits _ (cc ((validate_spec_iff c rule.spec).1 h, unlisted e listed)),
    )
