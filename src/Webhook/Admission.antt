-- ===== src/Webhook/Admission.antt =====
-- validateNodeReadinessRule and the three methods of the validator.
use node_readiness_controlle.Prelude.{String, Bool, true, false, List, [], ◌∷◌, ◌++◌}
use node_readiness_controlle.Prelude.Format.{concat}
use node_readiness_controlle.Api.{NodeReadinessRule}
use node_readiness_controlle.Platform.{text, Result, ok, err, Client}
use node_readiness_controlle.Webhook.Spec.{FieldError, validate_spec}
use node_readiness_controlle.Webhook.Conflicts.{validate_taint_conflicts}

-- runtime.Object: a rule, or an object of another type with the name of its type.
pub data Object : Type 0 where
  rule_object : NodeReadinessRule → Object
  other_object : String → Object

-- `show_errors` is the text of a field.ErrorList.
module _ {W S : Type 0} (c : Client W S) (show_errors : List FieldError → String) where
  unfoldable pub validate_node_readiness_rule : NodeReadinessRule → Bool → W → List FieldError × W
  validate_node_readiness_rule rule is_update w =
      let (conflict_errs, w') = validate_taint_conflicts c rule is_update w in
      (validate_spec c rule.spec ++ conflict_errs, w')

  abbrev pub admit : List FieldError × W → Result (Unit {0}) × W
  admit ([], w) = (ok tt, w)
  admit (e ∷ errors, w) =
      (err (text (concat ("validation failed: " ∷ show_errors (e ∷ errors) ∷ []))), w)

  abbrev pub validate_object : Bool → Object → W → Result (Unit {0}) × W
  validate_object is_update (rule_object rule) w =
      admit (validate_node_readiness_rule rule is_update w)
  validate_object is_update (other_object type_name) w =
      (err (text (concat ("expected NodeReadinessRule, got " ∷ type_name ∷ []))), w)

  unfoldable pub validate_create : Object → W → Result (Unit {0}) × W
  validate_create obj w = validate_object false obj w

  unfoldable pub validate_update : Object → Object → W → Result (Unit {0}) × W
  validate_update old_obj new_obj w = validate_object true new_obj w

  unfoldable pub validate_delete : Object → W → Result (Unit {0}) × W
  validate_delete obj w = (ok tt, w)
