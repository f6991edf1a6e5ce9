-- ===== src/NodeController/Taints.antt =====
-- The taints of a node: hasTaintBySpec, addTaintBySpec and removeTaintBySpec.
pub mod Laws
pub mod Stored
use node_readiness_controlle.Prelude.{
  Bool, ◌&&◌, ◌||◌, List, [], ◌∷◌, ◌++◌, Option, none, some, ◌==◌, ◌!=◌, any_of, keep_if,
}
use node_readiness_controlle.Api.{Taint, Node}
use node_readiness_controlle.Platform.{Error, Result, ok, err, Client}

-- The test of hasTaintBySpec: key and effect agree, the value is not compared.
abbrev pub has_key_and_effect : Taint → Taint → Bool
has_key_and_effect spec taint = taint.key == spec.key && taint.effect == spec.effect

abbrev pub differs_from : Taint → Taint → Bool
differs_from spec taint = taint.key != spec.key || taint.effect != spec.effect

unfoldable pub has_taint_by_spec : Node → Taint → Bool
has_taint_by_spec node spec = any_of (has_key_and_effect spec) node.taints

-- The node that addTaintBySpec sends.
abbrev pub with_taint : Node → Taint → Node
with_taint node spec = record node {
  taints = node.taints ++ record { key = spec.key; value = spec.value; effect = spec.effect } ∷ [];
}

-- The node that removeTaintBySpec sends.
abbrev pub without_taint : Node → Taint → Node
without_taint node spec = record node { taints = keep_if (differs_from spec) node.taints }

-- What `Patch` leaves in the node that the caller holds: the server's answer, or, after an error,
-- the node as it was changed for the patch.
abbrev pub after_patch : {W : Type 0} → Node → Result Node × W → Node × Option Error × W
after_patch node (ok fresh, w) = (fresh, none, w)
after_patch node (err e, w) = (node, some e, w)

module _ {W S : Type 0} (c : Client W S) where
  unfoldable pub add_taint_by_spec : Node → Taint → W → Node × Option Error × W
  add_taint_by_spec node spec w =
      after_patch (with_taint node spec) (c.patch_node node (with_taint node spec) w)

  unfoldable pub remove_taint_by_spec : Node → Taint → W → Node × Option Error × W
  remove_taint_by_spec node spec w =
      after_patch (without_taint node spec) (c.patch_node node (without_taint node spec) w)
