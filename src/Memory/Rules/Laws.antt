-- ===== src/Memory/Rules/Laws.antt =====
-- About the DeepCopyInto functions of rules and lists of rules: each of them makes a deep copy.
use node_readiness_controlle.Memory.Heap.Deep.{pure-Deep}
use node_readiness_controlle.Memory.Copies.Laws.{
  IsStable, MakesCopies, IsDeep, and_then-some, then-Deep, slice-IsDeep,
}
use node_readiness_controlle.Memory.Objects.{LibraryTypes, Library}
use node_readiness_controlle.Memory.Objects.Kinds.{rule_kind}
use node_readiness_controlle.Memory.Entries.{
  requirement_slice, text_slice, failure_slice, evaluation_slice, dry_run_results_copier,
}
use node_readiness_controlle.Memory.Entries.Laws.{
  IsLibrary, text_slice-IsDeep, failure_slice-IsDeep, evaluation_slice-IsDeep,
  requirement_slice-IsDeep, dry_run_results-IsDeep,
}
use node_readiness_controlle.Memory.Rules.{
  spec_copier, status_copier, rule_copier, rule_list_copier, rule_slice,
}

module _ {T : LibraryTypes} (lib : Library T) (deep : IsLibrary lib) where
  spec_stable : IsStable (spec_copier lib)
  spec_stable h k object v kept e =
      let (v1, e1, rest1) =
        and_then-some ((requirement_slice lib).read h object.conditions) _ v e in
      let (v2, e2, rest2) = and_then-some (lib.taint.read h object.taint) _ v rest1 in
      let (v3, e3, rest3) = and_then-some (lib.selector.read h object.node_selector) _ v rest2 in
      rw
        (
          (requirement_slice-IsDeep lib deep).stable h k object.conditions v1 kept e1,
          deep.taint.stable h k object.taint v2 kept e2,
          deep.selector.stable h k object.node_selector v3 kept e3,
        )
        rest3

  spec_copies : MakesCopies (spec_copier lib)
  spec_copies h object v valid e =
      let (v1, e1, rest1) =
        and_then-some ((requirement_slice lib).read h object.conditions) _ v e in
      let (v2, e2, rest2) = and_then-some (lib.taint.read h object.taint) _ v rest1 in
      let (v3, e3, rest3) = and_then-some (lib.selector.read h object.node_selector) _ v rest2 in
      then-Deep (requirement_slice lib) (requirement_slice-IsDeep lib deep) h h object.conditions v1
        _ _ valid (λ p z q. q) e1
        (λ y1 h1 w1 s1.
          then-Deep lib.taint deep.taint h h1 object.taint v2 _ _ w1 s1 e2 (λ y2 h2 w2 s2.
            then-Deep lib.selector deep.selector h h2 object.node_selector v3 _ _ w2 s2 e3
              (λ y3 h3 w3 s3. pure-Deep _ h3 _ w3 (λ k r1 r2 r3. rw (r1, r2, r3) rest3))))

  pub spec-IsDeep : IsDeep (spec_copier lib)
  spec-IsDeep = record { stable = spec_stable; copies = spec_copies }

  status_stable : IsStable (status_copier lib)
  status_stable h k object v kept e =
      let (v1, e1, rest1) = and_then-some ((text_slice lib).read h object.applied_nodes) _ v e in
      let (v2, e2, rest2) =
        and_then-some ((failure_slice lib).read h object.failed_nodes) _ v rest1 in
      let (v3, e3, rest3) =
        and_then-some ((evaluation_slice lib).read h object.node_evaluations) _ v rest2 in
      let (v4, e4, rest4) =
        and_then-some ((dry_run_results_copier lib).read h object.dry_run_results) _ v rest3 in
      rw
        (
          (text_slice-IsDeep lib deep).stable h k object.applied_nodes v1 kept e1,
          (failure_slice-IsDeep lib deep).stable h k object.failed_nodes v2 kept e2,
          (evaluation_slice-IsDeep lib deep).stable h k object.node_evaluations v3 kept e3,
          (dry_run_results-IsDeep lib deep).stable h k object.dry_run_results v4 kept e4,
        )
        rest4

  status_copies : MakesCopies (status_copier lib)
  status_copies h object v valid e =
      let (v1, e1, rest1) = and_then-some ((text_slice lib).read h object.applied_nodes) _ v e in
      let (v2, e2, rest2) =
        and_then-some ((failure_slice lib).read h object.failed_nodes) _ v rest1 in
      let (v3, e3, rest3) =
        and_then-some ((evaluation_slice lib).read h object.node_evaluations) _ v rest2 in
      let (v4, e4, rest4) =
        and_then-some ((dry_run_results_copier lib).read h object.dry_run_results) _ v rest3 in
      then-Deep (text_slice lib) (text_slice-IsDeep lib deep) h h object.applied_nodes v1 _ _ valid
        (λ p z q. q) e1
        (λ y1 h1 w1 s1.
          then-Deep (failure_slice lib) (failure_slice-IsDeep lib deep) h h1 object.failed_nodes v2
            _ _ w1 s1 e2
            (λ y2 h2 w2 s2.
              then-Deep (evaluation_slice lib) (evaluation_slice-IsDeep lib deep) h h2
                object.node_evaluations v3 _ _ w2 s2 e3
                (λ y3 h3 w3 s3.
                  then-Deep (dry_run_results_copier lib) (dry_run_results-IsDeep lib deep) h h3
                    object.dry_run_results v4 _ _ w3 s3 e4
                    (λ y4 h4 w4 s4.
                      pure-Deep _ h4 _ w4 (λ k r1 r2 r3 r4. rw (r1, r2, r3, r4) rest4)))))

  pub status-IsDeep : IsDeep (status_copier lib)
  status-IsDeep = record { stable = status_stable; copies = status_copies }

  rule_stable : IsStable (rule_copier lib)
  rule_stable h k object v kept e =
      let (v1, e1, rest1) = and_then-some (lib.object_meta.read h object.object_meta) _ v e in
      let (v2, e2, rest2) = and_then-some ((spec_copier lib).read h object.spec) _ v rest1 in
      let (v3, e3, rest3) = and_then-some ((status_copier lib).read h object.status) _ v rest2 in
      rw
        (
          deep.object_meta.stable h k object.object_meta v1 kept e1,
          spec-IsDeep.stable h k object.spec v2 kept e2,
          status-IsDeep.stable h k object.status v3 kept e3,
        )
        rest3

  rule_copies : MakesCopies (rule_copier lib)
  rule_copies h object v valid e =
      let (v1, e1, rest1) = and_then-some (lib.object_meta.read h object.object_meta) _ v e in
      let (v2, e2, rest2) = and_then-some ((spec_copier lib).read h object.spec) _ v rest1 in
      let (v3, e3, rest3) = and_then-some ((status_copier lib).read h object.status) _ v rest2 in
      then-Deep lib.object_meta deep.object_meta h h object.object_meta v1 _ _ valid (λ p z q. q) e1
        (λ y1 h1 w1 s1.
          then-Deep (spec_copier lib) spec-IsDeep h h1 object.spec v2 _ _ w1 s1 e2 (λ y2 h2 w2 s2.
            then-Deep (status_copier lib) status-IsDeep h h2 object.status v3 _ _ w2 s2 e3
              (λ y3 h3 w3 s3. pure-Deep _ h3 _ w3 (λ k r1 r2 r3. rw (r1, r2, r3) rest3))))

  pub rule-IsDeep : IsDeep (rule_copier lib)
  rule-IsDeep = record { stable = rule_stable; copies = rule_copies }

  rule_slice-IsDeep : IsDeep (rule_slice lib)
  rule_slice-IsDeep = slice-IsDeep (rule_kind T) (rule_copier lib) rule-IsDeep

  rule_list_stable : IsStable (rule_list_copier lib)
  rule_list_stable h k object v kept e =
      let (v1, e1, rest1) = and_then-some (lib.list_meta.read h object.list_meta) _ v e in
      let (v2, e2, rest2) = and_then-some ((rule_slice lib).read h object.items) _ v rest1 in
      rw
        (
          deep.list_meta.stable h k object.list_meta v1 kept e1,
          rule_slice-IsDeep.stable h k object.items v2 kept e2,
        )
        rest2

  rule_list_copies : MakesCopies (rule_list_copier lib)
  rule_list_copies h object v valid e =
      let (v1, e1, rest1) = and_then-some (lib.list_meta.read h object.list_meta) _ v e in
      let (v2, e2, rest2) = and_then-some ((rule_slice lib).read h object.items) _ v rest1 in
      then-Deep lib.list_meta deep.list_meta h h object.list_meta v1 _ _ valid (λ p z q. q) e1
        (λ y1 h1 w1 s1.
          then-Deep (rule_slice lib) rule_slice-IsDeep h h1 object.items v2 _ _ w1 s1 e2
            (λ y2 h2 w2 s2. pure-Deep _ h2 _ w2 (λ k r1 r2. rw (r1, r2) rest2)))

  pub rule_list-IsDeep : IsDeep (rule_list_copier lib)
  rule_list-IsDeep = record { stable = rule_list_stable; copies = rule_list_copies }
