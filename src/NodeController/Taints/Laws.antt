-- ===== src/NodeController/Taints/Laws.antt =====
-- About addTaintBySpec and removeTaintBySpec: the taints of the node before and after.
use node_readiness_controlle.Prelude.{
  true, false, List, [], ◌∷◌, ◌++◌, none, ◌≡◌, ◌≢◌, refl, ap, any_of, keep_if, eq_iff, arith, ◌==◌,
  ◌&&◌, if◌then◌else◌,
}
use node_readiness_controlle.Api.{Taint, Node}
use node_readiness_controlle.Platform.{Result, ok, err, Client}
use node_readiness_controlle.Platform.Laws.{PatchLaw}
use node_readiness_controlle.NodeController.Taints.{
  has_key_and_effect, differs_from, has_taint_by_spec, after_patch, with_taint, without_taint,
  add_taint_by_spec, remove_taint_by_spec,
}

any_of-keep_if :
    (spec : Taint) (l : List Taint)
    → any_of (has_key_and_effect spec) (keep_if (differs_from spec) l) ≡ false
any_of-keep_if spec [] = refl
any_of-keep_if spec (t ∷ l) = ground (arith, any_of-keep_if spec l)

any_of-append_last :
    (spec : Taint) (v : Taint) (l : List Taint)
    → v.key ≡ spec.key
    → v.effect ≡ spec.effect
    → any_of (has_key_and_effect spec) (l ++ v ∷ []) ≡ true
any_of-append_last spec v [] k e =
    ground (arith, eq_iff v.key spec.key, eq_iff v.effect spec.effect)
any_of-append_last spec v (t ∷ l) k e = ground (arith, any_of-append_last spec v l k e)

-- After removal no taint of that key and effect is left.
pub has_taint-without_taint :
    (node : Node) (spec : Taint) → has_taint_by_spec (without_taint node spec) spec ≡ false
unfolding has_taint_by_spec
has_taint-without_taint node spec = any_of-keep_if spec node.taints

pub has_taint-with_taint :
    (node : Node) (spec : Taint) → has_taint_by_spec (with_taint node spec) spec ≡ true
unfolding has_taint_by_spec
has_taint-with_taint node spec = any_of-append_last spec _ node.taints refl refl

-- The taints of another key or another effect.
abbrev pub other_taints : Taint → List Taint → List Taint
other_taints spec [] = []
other_taints spec (t ∷ l) =
    if t.key == spec.key && t.effect == spec.effect
    then other_taints spec l
    else t ∷ other_taints spec l

other_taints-keep_if :
    (spec : Taint) (l : List Taint)
    → other_taints spec (keep_if (differs_from spec) l) ≡ other_taints spec l
other_taints-keep_if spec [] = refl
other_taints-keep_if spec (t ∷ l) = ground (arith, other_taints-keep_if spec l)

other_taints-append_last :
    (spec v : Taint) (l : List Taint)
    → v.key ≡ spec.key
    → v.effect ≡ spec.effect
    → other_taints spec (l ++ v ∷ []) ≡ other_taints spec l
other_taints-append_last spec v [] k e =
    ground (arith, eq_iff v.key spec.key, eq_iff v.effect spec.effect)
other_taints-append_last spec v (t ∷ l) k e = ground (arith, other_taints-append_last spec v l k e)

-- Adding or removing the rule's taint leaves the list of the others as it was.
pub other_taints_stay :
    (node : Node) (spec : Taint)
    → (other_taints spec (without_taint node spec).taints ≡ other_taints spec node.taints)
      × (other_taints spec (with_taint node spec).taints ≡ other_taints spec node.taints)
other_taints_stay node spec =
    (other_taints-keep_if spec node.taints, other_taints-append_last spec _ node.taints refl refl)

-- The taints alone decide.
pub has_taint_by_taints :
    (node node' : Node) (spec : Taint)
    → node.taints ≡ node'.taints
    → has_taint_by_spec node spec ≡ has_taint_by_spec node' spec
unfolding has_taint_by_spec
has_taint_by_taints node node' spec e = ap (any_of (has_key_and_effect spec)) e

pub removal_changes :
    (node : Node) (spec : Taint)
    → has_taint_by_spec node spec ≡ true
    → (without_taint node spec).taints ≢ node.taints
unfolding has_taint_by_spec
removal_changes node spec had e =
    cc (ap (any_of (has_key_and_effect spec)) e, has_taint-without_taint node spec)

pub addition_changes :
    (node : Node) (spec : Taint)
    → has_taint_by_spec node spec ≡ false
    → (with_taint node spec).taints ≢ node.taints
unfolding has_taint_by_spec
addition_changes node spec had e =
    cc (ap (any_of (has_key_and_effect spec)) e, has_taint-with_taint node spec)

module _ {W S : Type 0} (c : Client W S) (patches : PatchLaw c) where
  after_patch_taints :
      (base node : Node) (w : W) (p : Result Node × W)
      → c.patch_node base node w ≡ p
      → node.taints ≢ base.taints
      → (after_patch node p).1 ≡ none
      → (after_patch node p).0.taints ≡ node.taints
  after_patch_taints base node w (ok fresh, w') e ne done = (patches base node fresh w w' e ne).0
  after_patch_taints base node w (err x, w') e ne done = cc

  module _ (node : Node) (spec : Taint) (w : W) where
    -- A removal that reports no error leaves the node that the caller holds without the taint.
    pub remove_taint_removes :
        has_taint_by_spec node spec ≡ true
        → (remove_taint_by_spec c node spec w).1 ≡ none
        → has_taint_by_spec (remove_taint_by_spec c node spec w).0 spec ≡ false
    unfolding remove_taint_by_spec has_taint_by_spec
    remove_taint_removes had done = cc (
      ap (any_of (has_key_and_effect spec)) (
          after_patch_taints node (without_taint node spec) w _ refl (removal_changes node spec had)
            done),
      has_taint-without_taint node spec,
    )

    pub add_taint_adds :
        has_taint_by_spec node spec ≡ false
        → (add_taint_by_spec c node spec w).1 ≡ none
        → has_taint_by_spec (add_taint_by_spec c node spec w).0 spec ≡ true
    unfolding add_taint_by_spec has_taint_by_spec
    add_taint_adds had done = cc (
      ap (any_of (has_key_and_effect spec)) (
          after_patch_taints node (with_taint node spec) w _ refl (addition_changes node spec had)
            done),
      has_taint-with_taint node spec,
    )

  after_patch_name :
      (base node : Node) (w : W) (p : Result Node × W)
      → c.patch_node base node w ≡ p
      → node.taints ≢ base.taints
      → (after_patch node p).0.name ≡ node.name
  after_patch_name base node w (ok fresh, w') e ne = (patches base node fresh w w' e ne).1
  after_patch_name base node w (err x, w') e ne = refl

  -- The node that the caller holds keeps its name, also after an error.
  pub remove_taint_name :
      (node : Node) (spec : Taint) (w : W)
      → has_taint_by_spec node spec ≡ true
      → (remove_taint_by_spec c node spec w).0.name ≡ node.name
  unfolding remove_taint_by_spec
  remove_taint_name node spec w had =
      after_patch_name node (without_taint node spec) w _ refl (removal_changes node spec had)

  pub add_taint_name :
      (node : Node) (spec : Taint) (w : W)
      → has_taint_by_spec node spec ≡ false
      → (add_taint_by_spec c node spec w).0.name ≡ node.name
  unfolding add_taint_by_spec
  add_taint_name node spec w had =
      after_patch_name node (with_taint node spec) w _ refl (addition_changes node spec had)
