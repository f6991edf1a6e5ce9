-- ===== src/NodeController/Taints/Stored.antt =====
-- About addTaintBySpec and removeTaintBySpec: the taints on the server after them.
use node_readiness_controlle.Prelude.{
  String, Bool, List, true, false, Option, none, some, ◌≡◌, ◌≢◌, refl, ap, ◌∙◌,
}
use node_readiness_controlle.Api.{Taint, Node}
use node_readiness_controlle.Platform.{Result, ok, err, Client}
use node_readiness_controlle.Platform.Laws.{PatchLaw, TaintStoreLaw}
use node_readiness_controlle.NodeController.Taints.{
  has_taint_by_spec, after_patch, with_taint, without_taint, add_taint_by_spec,
  remove_taint_by_spec,
}
use node_readiness_controlle.NodeController.Taints.Laws.{
  has_taint_by_taints, removal_changes, addition_changes, has_taint-without_taint,
  has_taint-with_taint, other_taints, other_taints_stay,
}

-- What is looked at of a node that was read.
abbrev pub read_node : {A : Type 0} → (Node → A) → Result Node → Option A
read_node f (ok node) = some (f node)
read_node f (err e) = none

-- Whether a node that was read has the taint, and its taints of another key or another effect.
abbrev pub read_taint : Taint → Result Node → Option Bool
read_taint spec = read_node (λ node. has_taint_by_spec node spec)

abbrev pub read_others : Taint → Result Node → Option (List Taint)
read_others spec = read_node (λ node. other_taints spec node.taints)

-- The taints alone decide what is seen.
abbrev pub IsOfTaints : {A : Type 0} → (Node → A) → Type 0
IsOfTaints f = (node node' : Node) → node.taints ≡ node'.taints → f node ≡ f node'

pub has_taint-IsOfTaints : (spec : Taint) → IsOfTaints (λ node. has_taint_by_spec node spec)
has_taint-IsOfTaints spec node node' e = has_taint_by_taints node node' spec e

pub other_taints-IsOfTaints : (spec : Taint) → IsOfTaints (λ node. other_taints spec node.taints)
other_taints-IsOfTaints spec node node' e = ap (other_taints spec) e

pub after_patch_world :
    {W : Type 0} (node : Node) (p : Result Node × W) → (after_patch node p).2 ≡ p.1
after_patch_world node (ok fresh, w) = refl
after_patch_world node (err e, w) = refl

module _ {W S : Type 0} (c : Client W S) where
  -- The server as a rule sees it: which nodes there are, and which of them have the taint.
  abbrev pub taint_view : Taint → String → W → Option Bool
  taint_view spec n w = read_taint spec (c.get_node n w).0

  -- The taints of the others, in their order and with their values.
  abbrev pub others_view : Taint → String → W → Option (List Taint)
  others_view spec n w = read_others spec (c.get_node n w).0

  module _ (patches : PatchLaw c) (store : TaintStoreLaw c) where
    patched_view :
        {A : Type 0} (f : Node → A) (of_taints : IsOfTaints f) (base node : Node) (w : W)
        (p : Result Node × W)
        → c.patch_node base node w ≡ p
        → node.taints ≢ base.taints
        → (after_patch node p).1 ≡ none
        → read_node f (c.get_node node.name (after_patch node p).2).0 ≡ some (f node)
    patched_view f of_taints base node w (err e, w') q changes done = cc
    patched_view f of_taints base node w (ok fresh, w') q changes done =
        ap (read_node f) (store.patch_node_stores base node fresh w w' q changes)
        ∙ ap some (of_taints fresh node (patches base node fresh w w' q changes).0)

    module _ (spec : Taint) (node : Node) (w : W) where
      -- A removal that reports no error takes the taint off the node on the server.
      pub remove_taint_view :
          has_taint_by_spec node spec ≡ true
          → (remove_taint_by_spec c node spec w).1 ≡ none
          → taint_view spec node.name (remove_taint_by_spec c node spec w).2 ≡ some false
      unfolding remove_taint_by_spec
      remove_taint_view had done =
          patched_view (λ m. has_taint_by_spec m spec) (has_taint-IsOfTaints spec) node
            (without_taint node spec) w _ refl (removal_changes node spec had) done
          ∙ ap some (has_taint-without_taint node spec)

      pub add_taint_view :
          has_taint_by_spec node spec ≡ false
          → (add_taint_by_spec c node spec w).1 ≡ none
          → taint_view spec node.name (add_taint_by_spec c node spec w).2 ≡ some true
      unfolding add_taint_by_spec
      add_taint_view had done =
          patched_view (λ m. has_taint_by_spec m spec) (has_taint-IsOfTaints spec) node
            (with_taint node spec) w _ refl (addition_changes node spec had) done
          ∙ ap some (has_taint-with_taint node spec)

      -- Neither changes a taint of another key or another effect.
      pub remove_taint_others_view :
          has_taint_by_spec node spec ≡ true
          → (remove_taint_by_spec c node spec w).1 ≡ none
          → others_view spec node.name (remove_taint_by_spec c node spec w).2
            ≡ some (other_taints spec node.taints)
      unfolding remove_taint_by_spec
      remove_taint_others_view had done =
          patched_view (λ m. other_taints spec m.taints) (other_taints-IsOfTaints spec) node
            (without_taint node spec) w _ refl (removal_changes node spec had) done
          ∙ ap some (other_taints_stay node spec).0

      pub add_taint_others_view :
          has_taint_by_spec node spec ≡ false
          → (add_taint_by_spec c node spec w).1 ≡ none
          → others_view spec node.name (add_taint_by_spec c node spec w).2
            ≡ some (other_taints spec node.taints)
      unfolding add_taint_by_spec
      add_taint_others_view had done =
          patched_view (λ m. other_taints spec m.taints) (other_taints-IsOfTaints spec) node
            (with_taint node spec) w _ refl (addition_changes node spec had) done
          ∙ ap some (other_taints_stay node spec).1

      -- Neither touches another node, whatever the outcome.
      pub remove_taint_others :
          (n : String)
          → node.name ≢ n
          → (c.get_node n (remove_taint_by_spec c node spec w).2).0 ≡ (c.get_node n w).0
      unfolding remove_taint_by_spec
      remove_taint_others n apart =
          ap (λ v. (c.get_node n v).0)
            (after_patch_world (without_taint node spec)
              (c.patch_node node (without_taint node spec) w))
          ∙ store.patch_node_others node (without_taint node spec) n w apart

      pub add_taint_others :
          (n : String)
          → node.name ≢ n
          → (c.get_node n (add_taint_by_spec c node spec w).2).0 ≡ (c.get_node n w).0
      unfolding add_taint_by_spec
      add_taint_others n apart =
          ap (λ v. (c.get_node n v).0)
            (after_patch_world (with_taint node spec) (c.patch_node node (with_taint node spec) w))
          ∙ store.patch_node_others node (with_taint node spec) n w apart
