-- ===== src/System/Invariants.antt =====
-- About the states that the controller can reach, whatever the order of the events.
use node_readiness_controlle.Prelude.{String}
use node_readiness_controlle.Api.{Node}
use node_readiness_controlle.Platform.{Result, ok, err, Client}
use node_readiness_controlle.NodeController.Process.{reconcile_fetched, reconcile as reconcile_node}
use node_readiness_controlle.NodeController.Process.Skips.{process_node-IsValid}
use node_readiness_controlle.RuleController.Cache.{Controller, set_global_dry_run}
use node_readiness_controlle.RuleController.Cache.Laws.{IsValid}
use node_readiness_controlle.RuleController.Reconcile.{State}
use node_readiness_controlle.RuleController.Reconcile.Validity.{reconcile-IsValid}
use node_readiness_controlle.System.{
  after_node, Step, rule_event, node_event, dry_run_switch, outside, Runs, here, later, initial,
}

module _ {W S : Type 0} (c : Client W S) where
  fetched-IsValid :
      (r : Controller) (p : Result Node × W) → IsValid r → IsValid (reconcile_fetched c r p).1
  fetched-IsValid r (err e, w) v = v
  fetched-IsValid r (ok node, w) v =
      process_node-IsValid c (record { node = node; controller = r; world = w }) v

  after_node-IsValid :
      (name : String) (s : State W)
      → IsValid s.controller
      → IsValid (after_node c name s).controller
  unfolding reconcile_node
  after_node-IsValid name s v = fetched-IsValid s.controller (c.get_node name s.world) v

  module _ (Outside : W → W → Type 0) where
    Step-IsValid :
        {s t : State W} → Step c Outside s t → IsValid s.controller → IsValid t.controller
    unfolding set_global_dry_run
    Step-IsValid {s} (rule_event name) v = reconcile-IsValid c name s v
    Step-IsValid {s} (node_event name) v = after_node-IsValid name s v
    Step-IsValid (dry_run_switch b) v = record { is_map = v.is_map; is_named = v.is_named }
    Step-IsValid (outside o) v = v

    -- In every state that a process reaches after its start, by events of rules and nodes,
    -- changes of the switch and whatever other writers do, in any order, the cache is a map whose
    -- keys are the names of its rules.
    pub reachable-IsValid :
        (w : W) {s : State W} → Runs c Outside (initial c w) s → IsValid s.controller
    reachable-IsValid w here = record { is_map = tt; is_named = tt }
    reachable-IsValid w (later r st) = Step-IsValid st (reachable-IsValid w r)
