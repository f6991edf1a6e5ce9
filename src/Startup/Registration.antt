-- ===== src/Startup/Registration.antt =====
-- What is registered with the libraries: the API group of api/v1alpha1/groupversion_info.go, and
-- the controllers and the webhook of the SetupWithManager methods, with the events that they let
-- through.
use node_readiness_controlle.Prelude.{
  ℕ, String, Bool, true, false, List, [], ◌∷◌, Option, none, some,
}
use node_readiness_controlle.Api.{Node}
use node_readiness_controlle.NodeController.Events.{should_reconcile}

pub record GroupVersion : Type 0 where
  pub group : String
  pub version : String

-- `GroupVersion`
abbrev pub group_version : GroupVersion
group_version = record { group = "readiness.node.x-k8s.io"; version = "v1alpha1" }

-- `objectTypes` after the `init` of nodereadinessrule_types.go, by the names of the types.
abbrev pub object_types : List String
object_types = "NodeReadinessRule" ∷ "NodeReadinessRuleList" ∷ []

-- An object of an event, as the code tells the types apart.
pub data EventObject : Type 0 where
  node_object : Node → EventObject
  other_object : EventObject

-- `CreateFunc`: the event of another type of object is dropped.
abbrev pub node_created : EventObject → Bool
node_created (node_object node) = true
node_created other_object = false

-- `UpdateFunc` on the two objects, which the code asserts to be nodes: it panics on any other.
abbrev pub node_updated : EventObject → EventObject → Option Bool
node_updated (node_object old_node) (node_object new_node) =
    some (should_reconcile old_node new_node)
node_updated (node_object old_node) other_object = none
node_updated other_object new_object = none

-- The events that a controller lets through.
pub data EventFilter : Type 0 where
  -- `predicate.Funcs` with a CreateFunc and an UpdateFunc
  event_funcs : (EventObject → Bool) → (EventObject → EventObject → Option Bool) → EventFilter
  -- `predicate.GenerationChangedPredicate{}`
  generation_changed : EventFilter

-- What the builder is told before `Complete`.
pub record ControllerSpec : Type 0 where
  pub controller_name : String
  pub object_kind : String
  pub max_concurrent_reconciles : Option ℕ
  pub filter : EventFilter

-- `RuleReconciler.SetupWithManager`
abbrev pub rule_controller : ControllerSpec
rule_controller = record {
  controller_name = "nodereadiness-controller";
  object_kind = "NodeReadinessRule";
  max_concurrent_reconciles = some 1;
  filter = generation_changed;
}

-- `NodeReconciler.SetupWithManager`
abbrev pub node_controller : ControllerSpec
node_controller = record {
  controller_name = "node";
  object_kind = "Node";
  max_concurrent_reconciles = none;
  filter = event_funcs node_created node_updated;
}

-- `NodeReadinessRuleWebhook.SetupWithManager`: the type whose requests it validates.
abbrev pub webhook_object_kind : String
webhook_object_kind = "NodeReadinessRule"
