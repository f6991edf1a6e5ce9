-- ===== src/RuleController/Finalizer/Laws.antt =====
-- About addFinalizer and removeFinalizer.
use node_readiness_controlle.Prelude.{
  String, true, false, List, [], ◌∷◌, ◌++◌, ◌==◌, ◌!=◌, ◌≡◌, ◌≢◌, arith, eq_iff, any_of, keep_if,
  if◌then◌else◌,
}
use node_readiness_controlle.Api.{NodeReadinessRule}
use node_readiness_controlle.RuleController.Finalizer.{
  contains_finalizer, add_finalizer, remove_finalizer,
}

any_of-append_self : (f : String) (l : List String) → any_of (λ g. g == f) (l ++ f ∷ []) ≡ true
any_of-append_self f [] = ground (arith, eq_iff f f)
any_of-append_self f (x ∷ l) = ground (arith, any_of-append_self f l)

any_of-append_other :
    (f g : String) (l : List String)
    → g ≢ f
    → any_of (λ x. x == g) (l ++ f ∷ []) ≡ any_of (λ x. x == g) l
any_of-append_other f g [] h = ground (arith, eq_iff f g)
any_of-append_other f g (x ∷ l) h = ground (arith, any_of-append_other f g l h)

any_of-keep_if :
    (f g : String) (l : List String)
    → any_of (λ x. x == g) (keep_if (λ x. x != f) l)
      ≡ (if g == f then false else any_of (λ x. x == g) l)
any_of-keep_if f g [] = ground arith
any_of-keep_if f g (x ∷ l) =
    ground (arith, eq_iff x f, eq_iff x g, eq_iff g f, any_of-keep_if f g l)

-- After adding, the finalizer is there; adding it again changes nothing; others are as before.
pub add_finalizer_lem :
    (rule : NodeReadinessRule) (f : String)
    → (contains_finalizer (add_finalizer rule f) f ≡ true)
      × (add_finalizer (add_finalizer rule f) f ≡ add_finalizer rule f)
      × ((g : String)
          → g ≢ f
          → contains_finalizer (add_finalizer rule f) g ≡ contains_finalizer rule g)
unfolding add_finalizer contains_finalizer
add_finalizer_lem rule f = (
  ground (arith, any_of-append_self f rule.finalizers),
  ground (arith, any_of-append_self f rule.finalizers),
  λ g h. ground (arith, any_of-append_other f g rule.finalizers h),
)

-- After the removal of a finalizer from a rule that finalizer is gone and every other one is
-- there as before.
pub contains-remove_finalizer :
    (rule : NodeReadinessRule) (f g : String)
    → contains_finalizer (remove_finalizer rule f) g
      ≡ (if g == f then false else contains_finalizer rule g)
unfolding remove_finalizer contains_finalizer
contains-remove_finalizer rule f g = any_of-keep_if f g rule.finalizers
