-- ===== src/RuleController/Evaluate/Conditions.antt =====
-- About the loop of evaluateRuleForNode over the conditions of the rule.
use mathlib.Core.List.{append_assoc, append-nil}
use node_readiness_controlle.Prelude.{
  Bool, true, false, ◌&&◌, List, [], ◌∷◌, ◌++◌, ◌==◌, ◌≡◌, refl, map, All, arith, eq_iff,
  if◌then◌else◌,
}
use node_readiness_controlle.Api.{Node, ConditionRequirement, ConditionEvaluationResult}
use node_readiness_controlle.NodeController.Conditions.{get_condition_status}
use node_readiness_controlle.RuleController.Evaluate.{evaluate_condition, evaluate_conditions}

-- The node has the required status for every condition of the list.
abbrev pub MeetsAll : Node → List ConditionRequirement → Type 0
MeetsAll node = All (λ req. get_condition_status node req.cond_type ≡ req.required_status)

-- The same as a test.
unfoldable pub meets_all : Node → List ConditionRequirement → Bool
meets_all node [] = true
meets_all node (req ∷ rest) =
    get_condition_status node req.cond_type == req.required_status && meets_all node rest

pub meets_all_sound :
    (node : Node) (reqs : List ConditionRequirement)
    → meets_all node reqs ≡ true
    → MeetsAll node reqs
unfolding meets_all
meets_all_sound node [] h = tt
meets_all_sound node (req ∷ rest) h = ground (
  arith,
  eq_iff (get_condition_status node req.cond_type) req.required_status,
  meets_all_sound node rest,
)

pub meets_all_complete :
    (node : Node) (reqs : List ConditionRequirement)
    → MeetsAll node reqs
    → meets_all node reqs ≡ true
unfolding meets_all
meets_all_complete node [] h = refl
meets_all_complete node (req ∷ rest) h = ground (
  arith,
  eq_iff (get_condition_status node req.cond_type) req.required_status,
  meets_all_complete node rest h.1,
)

pub evaluate_conditions_from :
    (node : Node) (reqs : List ConditionRequirement) (all_satisfied : Bool)
    (results : List ConditionEvaluationResult)
    → evaluate_conditions node reqs all_satisfied results
      ≡ (all_satisfied && meets_all node reqs, results ++ map (evaluate_condition node) reqs)
unfolding evaluate_conditions meets_all
evaluate_conditions_from node [] a results = ground (arith, append-nil results)
evaluate_conditions_from node (req ∷ rest) a results = ground (
  arith,
  evaluate_conditions_from node rest
      (if get_condition_status node req.cond_type == req.required_status then a else false)
      (results ++ evaluate_condition node req ∷ []),
  append_assoc results (evaluate_condition node req ∷ []) (map (evaluate_condition node) rest),
)

-- The loop over the required conditions gives whether the node meets every one of them, and one
-- result for each, in their order.
pub evaluate_conditions_lem :
    (node : Node) (reqs : List ConditionRequirement)
    → evaluate_conditions node reqs true []
      ≡ (meets_all node reqs, map (evaluate_condition node) reqs)
evaluate_conditions_lem node reqs = evaluate_conditions_from node reqs true []
