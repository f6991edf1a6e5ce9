-- ===== src/Webhook/Spec.antt =====
-- validateSpec: the errors of a rule's spec, in the order of the source.
use node_readiness_controlle.Prelude.{
  ℕ, suc, String, Bool, ◌&&◌, List, [], ◌∷◌, ◌++◌, ◌==◌, ◌!=◌, length, nat_eq, if◌then◌else◌,
}
use node_readiness_controlle.Api.{
  LabelSelector, ConditionRequirement, NodeReadinessRuleSpec, bootstrap_only, continuous,
}
use node_readiness_controlle.Platform.{Result, ok, err, error_string, Client}

-- A field.Path: the children and indices that it is built from.
pub data PathElement : Type 0 where
  child : String → PathElement
  index : ℕ → PathElement

abbrev pub FieldPath : Type 0
FieldPath = List PathElement

-- The value that field.Invalid reports.
pub data BadValue : Type 0 where
  selector : LabelSelector → BadValue
  word : String → BadValue

-- field.Required and field.Invalid.
pub data FieldError : Type 0 where
  required : FieldPath → String → FieldError
  invalid : FieldPath → BadValue → String → FieldError

abbrev pub spec_field : FieldPath
spec_field = child "spec" ∷ []

abbrev pub condition_field : ℕ → FieldPath
condition_field i = spec_field ++ child "conditions" ∷ index i ∷ []

-- `if b { allErrs = append(allErrs, e) }`
abbrev pub error_if : Bool → FieldError → List FieldError
error_if b e = if b then e ∷ [] else []

abbrev pub validate_condition : ℕ → ConditionRequirement → List FieldError
validate_condition i condition =
    error_if (condition.cond_type == "")
      (required (condition_field i ++ child "type" ∷ []) "condition type cannot be empty")
    ++ error_if (condition.required_status == "") (
        required (condition_field i ++ child "requiredStatus" ∷ [])
          "required status cannot be empty")

-- The loop over the conditions, from the index `i` on.
unfoldable pub validate_conditions : ℕ → List ConditionRequirement → List FieldError
validate_conditions i [] = []
validate_conditions i (condition ∷ rest) =
    validate_condition i condition ++ validate_conditions (suc i) rest

module _ {W S : Type 0} (c : Client W S) where
  abbrev pub validate_selector : LabelSelector → Result S → List FieldError
  validate_selector node_selector (err e) =
      invalid (spec_field ++ child "nodeSelector" ∷ []) (selector node_selector) (error_string e)
      ∷ []
  validate_selector node_selector (ok s) =
      error_if (c.is_empty s)
        (required (spec_field ++ child "nodeSelector" ∷ []) "nodeSelector must not be empty")

  unfoldable pub validate_spec : NodeReadinessRuleSpec → List FieldError
  validate_spec spec =
      error_if (nat_eq (length spec.conditions) 0)
        (required (spec_field ++ child "conditions" ∷ []) "at least one condition is required")
      ++ (validate_conditions 0 spec.conditions
          ++ (validate_selector spec.node_selector (c.as_selector spec.node_selector)
              ++ (error_if (spec.taint.key == "") (
                    required (spec_field ++ child "taint" ∷ child "key" ∷ [])
                      "taint key cannot be empty")
                  ++ (error_if (spec.taint.effect == "") (
                        required (spec_field ++ child "taint" ∷ child "effect" ∷ [])
                          "taint effect cannot be empty")
                      ++ error_if
                          (spec.enforcement_mode != bootstrap_only
                            && spec.enforcement_mode != continuous)
                          (invalid (spec_field ++ child "enforcementMode" ∷ [])
                            (word spec.enforcement_mode)
                            "must be 'bootstrap-only' or 'continuous'")))))
