-- ===== src/System.antt =====
-- The whole controller: its two reconcilers on one cache and one server, step by step.
pub mod Trace
pub mod Passes
pub mod Writes
pub mod Invariants
pub mod Completion
use node_readiness_controlle.Prelude.{String, Bool}
use node_readiness_controlle.Platform.{Client}
use node_readiness_controlle.RuleController.Cache.{
  new_readiness_gate_controller, set_global_dry_run,
}
use node_readiness_controlle.RuleController.Reconcile.{State, reconcile as reconcile_rule}
use node_readiness_controlle.NodeController.Process.{reconcile as reconcile_node}

module _ {W S : Type 0} (c : Client W S) where
  -- The state after a change of a node has been handled.
  abbrev pub after_node : String → State W → State W
  after_node name s =
      let (error, controller, world) = reconcile_node c name s.controller s.world in
      record { controller = controller; world = world }

  -- The state of a process that has just started.
  abbrev pub initial : W → State W
  initial w = record { controller = new_readiness_gate_controller; world = w }

  module _ (Outside : W → W → Type 0) where
    -- An event of a rule, an event of a node, the global switch, or what other writers do.
    pub data Step (s : State W) : State W → Type 0 where
      rule_event : (name : String) → Step s (reconcile_rule c name s).1
      node_event : (name : String) → Step s (after_node name s)
      dry_run_switch :
          (b : Bool) → Step s (record s { controller = set_global_dry_run b s.controller })
      outside : {w : W} → Outside s.world w → Step s (record s { world = w })

    -- Any number of steps, in any order.
    pub data Runs (s : State W) : State W → Type 0 where
      here : Runs s s
      later : {t u : State W} → Runs s t → Step t u → Runs s u
