-- ===== src/NodeController/Bootstrap.antt =====
-- Bootstrap completion, kept in an annotation of the node: isBootstrapCompleted and
-- markBootstrapCompleted.
pub mod Laws
pub mod Taints
use Prim.Native.String.{◌++◌ as str_append}
use node_readiness_controlle.Prelude.{String, Bool, false, contains_key, insert, if◌then◌else◌}
use node_readiness_controlle.Api.{Node}
use node_readiness_controlle.Platform.{Result, ok, err, Client}

unfoldable pub annotation_key : String → String
annotation_key rule_name = str_append "readiness.k8s.io/bootstrap-completed-" rule_name

-- The node with the annotation that marks the rule as completed.
abbrev pub mark : String → Node → Node
mark key node = record node { annotations = insert key "true" node.annotations }

-- The error of a call whose object is not used.
abbrev pub to_unit : {W A : Type 0} → Result A × W → Result (Unit {0}) × W
to_unit (ok a, w) = (ok tt, w)
to_unit (err e, w) = (err e, w)

module _ {W S : Type 0} (c : Client W S) where
  abbrev pub has_annotation : String → Result Node × W → Bool × W
  has_annotation key (ok node, w) = (contains_key key node.annotations, w)
  has_annotation key (err e, w) = (false, w)

  unfoldable pub is_bootstrap_completed : String → String → W → Bool × W
  is_bootstrap_completed node_name rule_name w =
      has_annotation (annotation_key rule_name) (c.get_node node_name w)

  abbrev pub mark_read : String → Result Node × W → Result (Unit {0}) × W
  mark_read key (err e, w) = (err e, w)
  mark_read key (ok node, w) =
      if contains_key key node.annotations
      then (ok tt, w)
      else to_unit (c.update_node (mark key node) w)

  -- The function that markBootstrapCompleted retries.
  unfoldable pub mark_attempt : String → String → W → Result (Unit {0}) × W
  mark_attempt node_name rule_name w = mark_read (annotation_key rule_name) (c.get_node node_name w)

  -- An error is logged, and not returned.
  unfoldable pub mark_bootstrap_completed : String → String → W → W
  mark_bootstrap_completed node_name rule_name w =
      (c.retry_on_conflict (mark_attempt node_name rule_name) w).1
