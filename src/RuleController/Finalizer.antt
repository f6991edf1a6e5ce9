-- ===== src/RuleController/Finalizer.antt =====
-- The finalizer of a rule: containsFinalizer, addFinalizer and removeFinalizer.
pub mod Laws
use node_readiness_controlle.Prelude.{
  String, Bool, [], ◌∷◌, ◌++◌, ◌==◌, ◌!=◌, not, any_of, keep_if, if◌then◌else◌,
}
use node_readiness_controlle.Api.{NodeReadinessRule}

abbrev pub finalizer_name : String
finalizer_name = "readiness.node.x-k8s.io/cleanup-taints"

unfoldable pub contains_finalizer : NodeReadinessRule → String → Bool
contains_finalizer rule finalizer = any_of (λ f. f == finalizer) rule.finalizers

unfoldable pub add_finalizer : NodeReadinessRule → String → NodeReadinessRule
add_finalizer rule finalizer =
    if not (contains_finalizer rule finalizer)
    then record rule { finalizers = rule.finalizers ++ finalizer ∷ [] }
    else rule

unfoldable pub remove_finalizer : NodeReadinessRule → String → NodeReadinessRule
remove_finalizer rule finalizer = record rule {
  finalizers = keep_if (λ f. f != finalizer) rule.finalizers;
}
