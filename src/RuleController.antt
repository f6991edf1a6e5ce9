-- ===== src/RuleController.antt =====
-- internal/controller/nodereadinessrule_controller.go: the evaluation of rules, the rule cache
-- and the reconciler that a change of a rule triggers.
pub mod Status
pub mod Evaluate
pub mod Cache
pub mod Selector
pub mod Finalizer
pub mod Process
pub mod DryRun
pub mod Cleanup
pub mod Persist
pub mod Reconcile
