-- ===== src/Webhook/Verdict.antt =====
-- About validateSpec and validateTaintConflicts: when their lists of errors are empty.
use node_readiness_controlle.Prelude.{
  ℕ, suc, String, Bool, true, false, ◌&&◌, List, [], ◌∷◌, ◌++◌, ◌==◌, ◌≡◌, ◌≢◌, ◌⊎◌, ◌↔◌, refl,
  arith, eq_iff, All, length, Bool-cases, inl, inr, nat_eq, ◌!=◌,
}
use node_readiness_controlle.Api.{
  ConditionRequirement, NodeReadinessRuleSpec, NodeReadinessRule, bootstrap_only, continuous,
}
use node_readiness_controlle.Platform.{Result, ok, err, Client}
use node_readiness_controlle.Webhook.Spec.{
  FieldError, error_if, validate_condition, validate_conditions, validate_selector, validate_spec,
}
use node_readiness_controlle.Webhook.Conflicts.{
  same_text, conflicts, conflict_errors, node_selectors_overlap,
}

abbrev pub IsNamedCondition : ConditionRequirement → Type 0
IsNamedCondition condition = (condition.cond_type ≢ "") × (condition.required_status ≢ "")

pub append-eq-nil {ℓ} : {A : Type ℓ} (xs ys : List A) → xs ++ ys ≡ [] → (xs ≡ []) × (ys ≡ [])
append-eq-nil [] ys h = (refl, h)
append-eq-nil (x ∷ xs) ys h = cc

validate_condition_sound :
    (i : ℕ) (condition : ConditionRequirement)
    → validate_condition i condition ≡ []
    → IsNamedCondition condition
validate_condition_sound i condition h =
    ground (arith, eq_iff condition.cond_type "", eq_iff condition.required_status "")

validate_condition_complete :
    (i : ℕ) (condition : ConditionRequirement)
    → IsNamedCondition condition
    → validate_condition i condition ≡ []
validate_condition_complete i condition h =
    ground (arith, eq_iff condition.cond_type "", eq_iff condition.required_status "")

validate_conditions_sound :
    (i : ℕ) (l : List ConditionRequirement) → validate_conditions i l ≡ [] → All IsNamedCondition l
unfolding validate_conditions
validate_conditions_sound i [] h = tt
validate_conditions_sound i (x ∷ l) h =
    let (here, there) = append-eq-nil (validate_condition i x) (validate_conditions (suc i) l) h in
    (validate_condition_sound i x here, validate_conditions_sound (suc i) l there)

validate_conditions_complete :
    (i : ℕ) (l : List ConditionRequirement) → All IsNamedCondition l → validate_conditions i l ≡ []
unfolding validate_conditions
validate_conditions_complete i [] h = refl
validate_conditions_complete i (x ∷ l) h =
    rw (validate_condition_complete i x h.0, validate_conditions_complete (suc i) l h.1)

-- What a spec must be: independent of the order and the number of the tests.
pub record IsWellFormed {W S : Type 0} (c : Client W S) (spec : NodeReadinessRuleSpec)
    : Type 0 where
  pub some_condition : spec.conditions ≢ []
  pub named_conditions : All IsNamedCondition spec.conditions
  pub parsed_selector : (s : S) × (c.as_selector spec.node_selector ≡ ok s) × (c.is_empty s ≡ false)
  pub taint_key : spec.taint.key ≢ ""
  pub taint_effect : spec.taint.effect ≢ ""
  pub known_mode : (spec.enforcement_mode ≡ bootstrap_only) ⊎ (spec.enforcement_mode ≡ continuous)

some_conditions :
    (l : List ConditionRequirement) (e : FieldError)
    → error_if (nat_eq (length l) 0) e ≡ []
    → l ≢ []
some_conditions [] e h p = cc
some_conditions (x ∷ l) e h p = cc

no_error_if : (b : Bool) (e : FieldError) → error_if b e ≡ [] → b ≡ false
no_error_if true e h = cc
no_error_if false e h = refl

not_empty : (s : String) → (s == "") ≡ false → s ≢ ""
not_empty s h e = ground (arith, eq_iff s "")

module _ {W S : Type 0} (c : Client W S) where
  parsed :
      (spec : NodeReadinessRuleSpec) (r : Result S)
      → validate_selector c spec.node_selector r ≡ []
      → (s : S) × (r ≡ ok s) × (c.is_empty s ≡ false)
  parsed spec (ok s) h = (s, refl, no_error_if _ _ h)
  parsed spec (err e) h = cc

  known :
      (mode : String)
      → (mode != bootstrap_only && mode != continuous) ≡ false
      → (mode ≡ bootstrap_only) ⊎ (mode ≡ continuous)
  known mode h = elim (Bool-cases (mode == bootstrap_only)) [
    | inl p ↦ inl ((eq_iff mode bootstrap_only).0 p)
    | inr p ↦ inr ((eq_iff mode continuous).0 (ground arith))
  ]

  validate_spec_sound :
      (spec : NodeReadinessRuleSpec) → validate_spec c spec ≡ [] → IsWellFormed c spec
  unfolding validate_spec
  validate_spec_sound spec h =
      let (first, h1) = append-eq-nil _ _ h in
      let (second, h2) = append-eq-nil _ _ h1 in
      let (third, h3) = append-eq-nil _ _ h2 in
      let (fourth, h4) = append-eq-nil _ _ h3 in
      let (fifth, sixth) = append-eq-nil _ _ h4 in
      record {
        some_condition = some_conditions spec.conditions _ first;
        named_conditions = validate_conditions_sound 0 spec.conditions second;
        parsed_selector = parsed spec (c.as_selector spec.node_selector) third;
        taint_key = not_empty spec.taint.key (no_error_if _ _ fourth);
        taint_effect = not_empty spec.taint.effect (no_error_if _ _ fifth);
        known_mode = known spec.enforcement_mode (no_error_if _ _ sixth);
      }

  validate_spec_complete :
      (spec : NodeReadinessRuleSpec) → IsWellFormed c spec → validate_spec c spec ≡ []
  unfolding validate_spec
  validate_spec_complete spec h =
      let (s, parses, full) = h.parsed_selector in
      ground (
        arith,
        validate_conditions_complete 0 spec.conditions h.named_conditions,
        eq_iff spec.taint.key "",
        eq_iff spec.taint.effect "",
        eq_iff spec.enforcement_mode bootstrap_only,
        eq_iff spec.enforcement_mode continuous,
      )

  -- The spec validation finds no error exactly in a well-formed spec.
  pub validate_spec_iff :
      (spec : NodeReadinessRuleSpec) → (validate_spec c spec ≡ []) ↔ IsWellFormed c spec
  validate_spec_iff spec = (validate_spec_sound spec, validate_spec_complete spec)

  -- The texts of two selectors are the same, as far as both parse.
  abbrev pub HasSameText : Result S → Result S → Type 0
  HasSameText p q =
      (sel1 sel2 : S) → p ≡ ok sel1 → q ≡ ok sel2 → c.selector_string sel1 ≡ c.selector_string sel2

  same_text_iff : (p q : Result S) → (same_text c p q ≡ true) ↔ HasSameText p q
  same_text_iff (err e) q = (λ h a b x y. cc, λ h. refl)
  same_text_iff (ok p) (err e) = (λ h a b x y. cc, λ h. refl)
  same_text_iff (ok p) (ok q) =
      let (to, from) = eq_iff (c.selector_string p) (c.selector_string q) in
      (λ h a b x y. cc (to h, x, y), λ h. from (h p q refl refl))

  -- Two rules clash: they are not one rule that is updated, they manage the same taint, and the
  -- texts of their selectors are the same, as far as both parse.
  pub record Clashes (is_update : Bool) (rule existing : NodeReadinessRule) : Type 0 where
    pub other_rule : (is_update ≡ true) → existing.name ≢ rule.name
    pub same_key : existing.spec.taint.key ≡ rule.spec.taint.key
    pub same_effect : existing.spec.taint.effect ≡ rule.spec.taint.effect
    pub same_selector :
        HasSameText
          (c.as_selector rule.spec.node_selector)
          (c.as_selector existing.spec.node_selector)

  conflicts_sound :
      (is_update : Bool) (rule existing : NodeReadinessRule)
      → conflicts c is_update rule existing ≡ true
      → Clashes is_update rule existing
  unfolding node_selectors_overlap
  conflicts_sound is_update rule existing h = record {
    other_rule = λ u e. ground (arith, eq_iff existing.name rule.name);
    same_key = ground (arith, eq_iff existing.spec.taint.key rule.spec.taint.key);
    same_effect = ground (arith, eq_iff existing.spec.taint.effect rule.spec.taint.effect);
    same_selector = (same_text_iff _ _).0 (ground arith);
  }

  conflicts_complete :
      (is_update : Bool) (rule existing : NodeReadinessRule)
      → Clashes is_update rule existing
      → conflicts c is_update rule existing ≡ true
  unfolding node_selectors_overlap
  conflicts_complete true rule existing h = ground (
    arith,
    h.other_rule refl,
    eq_iff existing.name rule.name,
    eq_iff existing.spec.taint.key rule.spec.taint.key,
    eq_iff existing.spec.taint.effect rule.spec.taint.effect,
    (same_text_iff _ _).1 h.same_selector,
  )
  conflicts_complete false rule existing h = ground (
    arith,
    eq_iff existing.spec.taint.key rule.spec.taint.key,
    eq_iff existing.spec.taint.effect rule.spec.taint.effect,
    (same_text_iff _ _).1 h.same_selector,
  )

  -- No error is found exactly where no listed rule clashes.
  pub no_conflict_errors :
      (rule : NodeReadinessRule) (is_update : Bool) (rules : List NodeReadinessRule)
      → (conflict_errors c rule is_update rules ≡ [])
        ↔ All (λ existing. ¬ Clashes is_update rule existing) rules
  unfolding conflict_errors
  no_conflict_errors rule is_update [] = (λ h. tt, λ h. refl)
  no_conflict_errors rule is_update (x ∷ rules) = elim (Bool-cases (conflicts c is_update rule x)) [
    | inl clash ↦ rw clash (λ h. cc, λ h. absurd (h.0 (conflicts_sound is_update rule x clash)))
    | inr apart ↦
        let (to, from) = no_conflict_errors rule is_update rules in
        rw apart (λ h. (λ k. cc (conflicts_complete is_update rule x k), to h), λ h. from h.1)
  ]
