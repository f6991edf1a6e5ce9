-- ===== src/Webhook/Policy.antt =====
-- About the webhook over a history of requests: the rules that ValidateCreate and ValidateUpdate
-- let into the server.
use node_readiness_controlle.Prelude.{
  String, Bool, true, false, List, [], ◌∷◌, ◌==◌, ◌!=◌, ◌≡◌, ◌≢◌, refl, sym, subst, ◌∙◌, arith,
  eq_iff, map, keep_if, All, if◌then◌else◌, Bool-cases, inl, inr,
}
use node_readiness_controlle.Api.{NodeReadinessRule}
use node_readiness_controlle.Platform.{ok, Client}
use node_readiness_controlle.Webhook.Spec.{FieldError}
use node_readiness_controlle.Webhook.Admission.{
  Object, rule_object, validate_create, validate_update,
}
use node_readiness_controlle.Webhook.Verdict.{IsWellFormed, Clashes}
use node_readiness_controlle.Webhook.Accept.{validate_create_iff, validate_update_iff}

All-keep_if :
    {A : Type 0} (P : A → Type 0) (p : A → Bool) (l : List A) → All P l → All P (keep_if p l)
All-keep_if P p [] h = tt
All-keep_if P p (x ∷ l) h = elim (Bool-cases (p x)) [
  | inl t ↦ rw t (h.0, All-keep_if P p l h.1)
  | inr f ↦ rw f (All-keep_if P p l h.1)
]

-- The stored rules after an update of one, and after its deletion.
abbrev pub replaced : NodeReadinessRule → List NodeReadinessRule → List NodeReadinessRule
replaced rule = map (λ r. if r.name == rule.name then rule else r)

abbrev pub without : String → List NodeReadinessRule → List NodeReadinessRule
without n = keep_if (λ r. r.name != n)

-- No two rules of the list have one name.
abbrev pub HasDistinctRules : List NodeReadinessRule → Type 0
HasDistinctRules [] = Unit
HasDistinctRules (r ∷ rest) = All (λ e. e.name ≢ r.name) rest × HasDistinctRules rest

module _ {W S : Type 0} (c : Client W S) where
  abbrev pub IsApart : NodeReadinessRule → NodeReadinessRule → Type 0
  IsApart a b = ¬ Clashes c false a b

  -- Every rule is well formed, and no two manage one taint on selectors of the same text.
  abbrev pub IsPolicy : List NodeReadinessRule → Type 0
  IsPolicy [] = Unit
  IsPolicy (r ∷ rest) = IsWellFormed c r.spec × All (IsApart r) rest × IsPolicy rest

  Clashes-comm : (a b : NodeReadinessRule) → Clashes c false a b → Clashes c false b a
  Clashes-comm a b h = record {
    other_rule = λ e. cc;
    same_key = sym h.same_key;
    same_effect = sym h.same_effect;
    same_selector = λ sel1 sel2 e f. sym (h.same_selector sel2 sel1 f e);
  }

  as_update :
      (rule existing : NodeReadinessRule)
      → existing.name ≢ rule.name
      → Clashes c false rule existing
      → Clashes c true rule existing
  as_update rule existing apart h = record {
    other_rule = λ e. apart;
    same_key = h.same_key;
    same_effect = h.same_effect;
    same_selector = h.same_selector;
  }

  module _ (rule : NodeReadinessRule) where
    replaced_absent :
        (rules : List NodeReadinessRule)
        → All (λ e. e.name ≢ rule.name) rules
        → replaced rule rules ≡ rules
    replaced_absent [] h = refl
    replaced_absent (r ∷ rest) h =
        ground (arith, eq_iff r.name rule.name, replaced_absent rest h.1, h.0)

    -- Where no stored rule has the name, the update test is the creation test.
    others-IsApart :
        (rules : List NodeReadinessRule)
        → All (λ e. e.name ≢ rule.name) rules
        → All (λ e. ¬ Clashes c true rule e) rules
        → All (IsApart rule) rules
    others-IsApart [] named apart = tt
    others-IsApart (r ∷ rest) named apart =
        (λ h. apart.0 (as_update rule r named.0 h), others-IsApart rest named.1 apart.1)

    replaced-IsApart :
        (r : NodeReadinessRule) (rules : List NodeReadinessRule)
        → IsApart r rule
        → All (IsApart r) rules
        → All (IsApart r) (replaced rule rules)
    replaced-IsApart r [] own others = tt
    replaced-IsApart r (e ∷ rest) own others = elim (Bool-cases (e.name == rule.name)) [
      | inl t ↦ rw t (own, replaced-IsApart r rest own others.1)
      | inr f ↦ rw f (others.0, replaced-IsApart r rest own others.1)
    ]

    replaced_names :
        (n : String) (rules : List NodeReadinessRule)
        → All (λ e. e.name ≢ n) rules
        → All (λ e. e.name ≢ n) (replaced rule rules)
    replaced_names n [] h = tt
    replaced_names n (e ∷ rest) h = elim (Bool-cases (e.name == rule.name)) [
      | inl t ↦ rw t (λ q. h.0 ((eq_iff e.name rule.name).0 t ∙ q), replaced_names n rest h.1)
      | inr f ↦ rw f (h.0, replaced_names n rest h.1)
    ]

    replaced-IsPolicy :
        (rules : List NodeReadinessRule)
        → IsWellFormed c rule.spec
        → All (λ e. ¬ Clashes c true rule e) rules
        → HasDistinctRules rules
        → IsPolicy rules
        → IsPolicy (replaced rule rules)
    replaced-IsPolicy [] formed apart distinct h = tt
    replaced-IsPolicy (r ∷ rest) formed apart distinct h = elim (Bool-cases (r.name == rule.name)) [
      | inl t ↦
          let named : All (λ e. e.name ≢ rule.name) rest =
            subst (λ n. All (λ e. e.name ≢ n) rest) ((eq_iff r.name rule.name).0 t) distinct.0 in
          rw (t, replaced_absent rest named) (formed, others-IsApart rest named apart.1, h.2)
      | inr f ↦ rw f (
        h.0,
        replaced-IsApart r rest
            (λ k. apart.0 (
              as_update rule r (λ e. ground (arith, eq_iff r.name rule.name))
                (Clashes-comm r rule k)))
            h.1,
        replaced-IsPolicy rest formed apart.1 distinct.1 h.2,
      )
    ]

    replaced-HasDistinctRules :
        (rules : List NodeReadinessRule)
        → HasDistinctRules rules
        → HasDistinctRules (replaced rule rules)
    replaced-HasDistinctRules [] h = tt
    replaced-HasDistinctRules (r ∷ rest) h = elim (Bool-cases (r.name == rule.name)) [
      | inl t ↦ rw t (
        subst (λ n. All (λ e. e.name ≢ n) (replaced rule rest)) ((eq_iff r.name rule.name).0 t)
            (replaced_names r.name rest h.0),
        replaced-HasDistinctRules rest h.1,
      )
      | inr f ↦ rw f (replaced_names r.name rest h.0, replaced-HasDistinctRules rest h.1)
    ]

  without-IsPolicy :
      (n : String) (rules : List NodeReadinessRule) → IsPolicy rules → IsPolicy (without n rules)
  without-IsPolicy n [] h = tt
  without-IsPolicy n (r ∷ rest) h = elim (Bool-cases (r.name != n)) [
    | inl t ↦ rw t (h.0, All-keep_if (IsApart r) _ rest h.1, without-IsPolicy n rest h.2)
    | inr f ↦ rw f (without-IsPolicy n rest h.2)
  ]

  without-HasDistinctRules :
      (n : String) (rules : List NodeReadinessRule)
      → HasDistinctRules rules
      → HasDistinctRules (without n rules)
  without-HasDistinctRules n [] h = tt
  without-HasDistinctRules n (r ∷ rest) h = elim (Bool-cases (r.name != n)) [
    | inl t ↦
        rw t (All-keep_if (λ e. e.name ≢ r.name) _ rest h.0, without-HasDistinctRules n rest h.1)
    | inr f ↦ rw f (without-HasDistinctRules n rest h.1)
  ]

  module _ (show_errors : List FieldError → String) where
    -- The lists of rules that requests lead to, each admitted while the webhook could list the
    -- rules stored so far; a created rule has a name of its own.
    pub data Admitted : List NodeReadinessRule → Type 0 where
      empty : Admitted []
      created :
          {rules : List NodeReadinessRule} (rule : NodeReadinessRule) (w w' : W)
          → Admitted rules
          → All (λ e. e.name ≢ rule.name) rules
          → c.list_rules w ≡ (ok rules, w')
          → (validate_create c show_errors (rule_object rule) w).0 ≡ ok tt
          → Admitted (rule ∷ rules)
      updated :
          {rules : List NodeReadinessRule} (old : Object) (rule : NodeReadinessRule) (w w' : W)
          → Admitted rules
          → c.list_rules w ≡ (ok rules, w')
          → (validate_update c show_errors old (rule_object rule) w).0 ≡ ok tt
          → Admitted (replaced rule rules)
      deleted :
          {rules : List NodeReadinessRule} (n : String)
          → Admitted rules
          → Admitted (without n rules)

    Admitted-HasDistinctRules :
        {rules : List NodeReadinessRule} → Admitted rules → HasDistinctRules rules
    Admitted-HasDistinctRules empty = tt
    Admitted-HasDistinctRules (created rule w w' a named listed fine) =
        (named, Admitted-HasDistinctRules a)
    Admitted-HasDistinctRules (updated {rules} old rule w w' a listed fine) =
        replaced-HasDistinctRules rule rules (Admitted-HasDistinctRules a)
    Admitted-HasDistinctRules (deleted {rules} n a) =
        without-HasDistinctRules n rules (Admitted-HasDistinctRules a)

    -- Over any history of creations under a new name, updates and deletions that are admitted
    -- while the webhook can list the rules stored so far, every stored rule is well formed and no
    -- two stored rules have the same taint key, the same effect and a selector with the same
    -- text.
    pub Admitted-IsPolicy : {rules : List NodeReadinessRule} → Admitted rules → IsPolicy rules
    Admitted-IsPolicy empty = tt
    Admitted-IsPolicy (created {rules} rule w w' a named listed fine) =
        let (formed, apart) = (validate_create_iff c show_errors rule w w' rules listed).0 fine in
        (formed, apart, Admitted-IsPolicy a)
    Admitted-IsPolicy (updated {rules} old rule w w' a listed fine) =
        let (formed, apart) =
          (validate_update_iff c show_errors rule w w' old rules listed).0 fine in
        replaced-IsPolicy rule rules formed apart (Admitted-HasDistinctRules a)
          (Admitted-IsPolicy a)
    Admitted-IsPolicy (deleted {rules} n a) = without-IsPolicy n rules (Admitted-IsPolicy a)
