-- ===== src/Platform/Calls.antt =====
-- The client of the API server and the other libraries, over the state `W` of the world outside
-- the process and the parsed selectors `S`. Every call takes the world and gives the next one:
-- what other writers do between two calls is part of it.
use node_readiness_controlle.Prelude.{ℕ, String, Bool, List, StringMap}
use node_readiness_controlle.Api.{Node, LabelSelector, NodeReadinessRule}
use node_readiness_controlle.Platform.Errors.{Error, Result}

pub record Client (W S : Type 0) : Type 0 where
  -- `Get`, `List`, `Update` and `Status().Update` of rules; an update gives the object stored
  pub get_rule : String → W → Result NodeReadinessRule × W
  pub list_rules : W → Result (List NodeReadinessRule) × W
  pub update_rule : NodeReadinessRule → W → Result NodeReadinessRule × W
  pub update_rule_status : NodeReadinessRule → W → Result NodeReadinessRule × W
  -- `Get`, `List` and `Update` of nodes
  pub get_node : String → W → Result Node × W
  pub list_nodes : W → Result (List Node) × W
  pub update_node : Node → W → Result Node × W
  -- `Patch(ctx, node, StrategicMergeFrom(base))`: the base, then the node as changed
  pub patch_node : Node → Node → W → Result Node × W
  -- `apierrors.IsNotFound`, which `client.IgnoreNotFound` tests, and `apierrors.IsConflict`
  pub is_not_found : Error → Bool
  pub is_conflict : Error → Bool
  -- `retry.RetryOnConflict(retry.DefaultRetry, fn)`
  pub retry_on_conflict : (W → Result (Unit {0}) × W) → W → Result (Unit {0}) × W
  -- `metav1.Now()`
  pub now : W → ℕ
  -- `metav1.LabelSelectorAsSelector`, and the methods of the selector
  pub as_selector : LabelSelector → Result S
  pub matches : S → StringMap String → Bool
  pub is_empty : S → Bool
  pub selector_string : S → String
  -- the order in which a `range` over the rule cache meets its entries
  pub range_order : W → StringMap NodeReadinessRule → StringMap NodeReadinessRule
