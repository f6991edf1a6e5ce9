-- ===== src/RuleController/Cleanup/Laws.antt =====
-- About the loop that cleanupTaintsForRule and cleanupNodesAfterSelectorChange share.
use node_readiness_controlle.Prelude.{
  String, Bool, true, false, ◌&&◌, List, [], ◌∷◌, Option, none, some, ◌≡◌, refl, sym, ◌∙◌, ap,
  subst, arith, All, Bool-cases, inl, inr,
}
use node_readiness_controlle.Api.{Taint, Node}
use node_readiness_controlle.Platform.{Error, Result, ok, err, Client}
use node_readiness_controlle.Platform.Laws.{PatchLaw, TaintStoreLaw, NotNamed, HasDistinctNames}
use node_readiness_controlle.NodeController.Taints.{
  has_taint_by_spec, without_taint, after_patch, remove_taint_by_spec,
}
use node_readiness_controlle.NodeController.Taints.Laws.{
  removal_changes, has_taint-without_taint, has_taint_by_taints,
}
use node_readiness_controlle.NodeController.Taints.Stored.{after_patch_world, remove_taint_others}
use node_readiness_controlle.RuleController.Cleanup.{note_error, remove_taints}

module _ {W S : Type 0} (c : Client W S) (patches : PatchLaw c) (store : TaintStoreLaw c)
    (spec : Taint) where
  -- The server has the node, without the taint.
  abbrev pub IsClean : W → String → Type 0
  IsClean w n =
      (stored : Node) × ((c.get_node n w).0 ≡ ok stored) × (has_taint_by_spec stored spec ≡ false)

  abbrev IsCurrent : W → Node → Type 0
  IsCurrent w node = (c.get_node node.name w).0 ≡ ok node

  patched-IsClean :
      (node : Node) (w : W) (p : Result Node × W)
      → has_taint_by_spec node spec ≡ true
      → c.patch_node node (without_taint node spec) w ≡ p
      → (after_patch (without_taint node spec) p).1 ≡ none
      → IsClean p.1 node.name
  patched-IsClean node w (ok fresh, w') had e done =
      let changes = removal_changes node spec had in
      (
        fresh,
        store.patch_node_stores node (without_taint node spec) fresh w w' e changes,
        has_taint_by_taints fresh (without_taint node spec) spec
              (patches node (without_taint node spec) fresh w w' e changes).0
            ∙ has_taint-without_taint node spec,
      )
  patched-IsClean node w (err x, w') had e done = cc

  remove_taint_cleans :
      (node : Node) (w : W)
      → has_taint_by_spec node spec ≡ true
      → (remove_taint_by_spec c node spec w).1 ≡ none
      → IsClean (remove_taint_by_spec c node spec w).2 node.name
  unfolding remove_taint_by_spec
  remove_taint_cleans node w had done =
      subst (λ v. IsClean v node.name) (sym (after_patch_world (without_taint node spec) _))
        (patched-IsClean node w _ had refl done)

  note_error-none :
      (errors : List String) (r : Node × Option Error × W)
      → note_error errors r ≡ []
      → (errors ≡ []) × (r.1 ≡ none)
  note_error-none errors (node, none, w) h = (h, refl)
  note_error-none [] (node, some e, w) h = cc
  note_error-none (x ∷ errors) (node, some e, w) h = cc

  module _ (chosen : Node → Bool) where
    remove_taints_others :
        (nodes : List Node) (errors : List String) (n : String) (w : W)
        → NotNamed n nodes
        → (c.get_node n (remove_taints c chosen spec nodes errors w).1).0 ≡ (c.get_node n w).0
    unfolding remove_taints
    remove_taints_others [] errors n w h = refl
    remove_taints_others (node ∷ rest) errors n w h =
        let removed = remove_taint_by_spec c node spec w in
        elim (Bool-cases (chosen node && has_taint_by_spec node spec)) [
          | inl e ↦ rw e (
              remove_taints_others rest (note_error errors removed) n removed.2 h.1
              ∙ remove_taint_others c patches store spec node w n h.0)
          | inr e ↦ rw e (remove_taints_others rest errors n w h.1)
        ]

    errors_grow :
        (nodes : List Node) (errors : List String) (w : W)
        → (remove_taints c chosen spec nodes errors w).0 ≡ []
        → errors ≡ []
    unfolding remove_taints
    errors_grow [] errors w = λ h. h
    errors_grow (node ∷ rest) errors w =
        let removed = remove_taint_by_spec c node spec w in
        elim (Bool-cases (chosen node && has_taint_by_spec node spec)) [
          | inl e ↦ rw e (λ h.
              (note_error-none errors removed
                (errors_grow rest (note_error errors removed) removed.2 h)).0)
          | inr e ↦ rw e (errors_grow rest errors w)
        ]

    still-IsClean :
        (v w : W) (n : String) → (c.get_node n v).0 ≡ (c.get_node n w).0 → IsClean w n → IsClean v n
    still-IsClean v w n same (stored, found, clean) = (stored, same ∙ found, clean)

    still-IsCurrent :
        (node : Node) (w : W) (rest : List Node)
        → NotNamed node.name rest
        → All (IsCurrent w) rest
        → All (IsCurrent (remove_taint_by_spec c node spec w).2) rest
    still-IsCurrent node w [] apart current = tt
    still-IsCurrent node w (m ∷ rest) apart current = (
      remove_taint_others c patches store spec node w m.name (λ e. apart.0 (sym e)) ∙ current.0,
      still-IsCurrent node w rest apart.1 current.1,
    )

    -- The loop over the nodes, where it reports no error.
    pub remove_taints_cleans :
        (nodes : List Node) (errors : List String) (w : W) (out : List String × W)
        → All (IsCurrent w) nodes
        → HasDistinctNames nodes
        → remove_taints c chosen spec nodes errors w ≡ out
        → out.0 ≡ []
        → All (λ node. chosen node ≡ true → IsClean out.1 node.name) nodes
    unfolding remove_taints
    remove_taints_cleans [] errors w out current distinct q done = tt
    remove_taints_cleans (node ∷ rest) errors w out current distinct q done =
        let removed = remove_taint_by_spec c node spec w in
        elim (Bool-cases (chosen node && has_taint_by_spec node spec)) [
          | inl e ↦
              let next : remove_taints c chosen spec rest (note_error errors removed) removed.2
                  ≡ out =
                rw e at q in
              let grown =
                errors_grow rest (note_error errors removed) removed.2
                  (ap (λ o. o.0) next ∙ done) in
              let same =
                ap (λ o. (c.get_node node.name o.1).0) (sym next)
                ∙ remove_taints_others rest (note_error errors removed) node.name removed.2
                    distinct.0 in
              (
                λ picked. still-IsClean out.1 removed.2 node.name same (
                    remove_taint_cleans node w (ground arith)
                      (note_error-none errors removed grown).1),
                remove_taints_cleans rest (note_error errors removed) removed.2 out
                    (still-IsCurrent node w rest distinct.0 current.1) distinct.1 next done,
              )
          | inr e ↦
              let next : remove_taints c chosen spec rest errors w ≡ out = rw e at q in
              let same =
                ap (λ o. (c.get_node node.name o.1).0) (sym next)
                ∙ remove_taints_others rest errors node.name w distinct.0 in
              (
                λ picked. still-IsClean out.1 w node.name same (node, current.0, ground arith),
                remove_taints_cleans rest errors w out current.1 distinct.1 next done,
              )
        ]
