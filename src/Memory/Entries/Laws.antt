-- ===== src/Memory/Entries/Laws.antt =====
-- About the DeepCopyInto functions of the entries: each of them makes a deep copy.
use node_readiness_controlle.Memory.Heap.Deep.{pure-Deep}
use node_readiness_controlle.Memory.Copies.{plain}
use node_readiness_controlle.Memory.Copies.Laws.{
  IsStable, MakesCopies, IsDeep, and_then-some, then-Deep, plain-IsDeep, slice-IsDeep,
  pointer-IsDeep,
}
use node_readiness_controlle.Memory.Objects.{LibraryTypes, Library}
use node_readiness_controlle.Memory.Objects.Kinds.{
  number_kind, text_kind, requirement_kind, result_kind, evaluation_kind, failure_kind,
}
use node_readiness_controlle.Memory.Entries.{
  number_pointer, result_slice, requirement_slice, text_slice, failure_slice, evaluation_slice,
  requirement_copier, result_copier, dry_run_results_copier, failure_copier, evaluation_copier,
}

-- DeepCopyInto of the libraries makes deep copies.
pub record IsLibrary {T : LibraryTypes} (lib : Library T) : Type 0 where
  pub object_meta : IsDeep lib.object_meta
  pub list_meta : IsDeep lib.list_meta
  pub time : IsDeep lib.time
  pub taint : IsDeep lib.taint
  pub selector : IsDeep lib.selector

module _ {T : LibraryTypes} (lib : Library T) (deep : IsLibrary lib) where
  number_pointer-IsDeep : IsDeep (number_pointer lib)
  number_pointer-IsDeep = pointer-IsDeep (number_kind T) plain plain-IsDeep

  dry_run_results_stable : IsStable (dry_run_results_copier lib)
  dry_run_results_stable h k object v kept e =
      let (v1, e1, rest1) =
        and_then-some ((number_pointer lib).read h object.affected_nodes) _ v e in
      let (v2, e2, rest2) =
        and_then-some ((number_pointer lib).read h object.taints_to_add) _ v rest1 in
      let (v3, e3, rest3) =
        and_then-some ((number_pointer lib).read h object.taints_to_remove) _ v rest2 in
      let (v4, e4, rest4) =
        and_then-some ((number_pointer lib).read h object.risky_operations) _ v rest3 in
      rw
        (
          number_pointer-IsDeep.stable h k object.affected_nodes v1 kept e1,
          number_pointer-IsDeep.stable h k object.taints_to_add v2 kept e2,
          number_pointer-IsDeep.stable h k object.taints_to_remove v3 kept e3,
          number_pointer-IsDeep.stable h k object.risky_operations v4 kept e4,
        )
        rest4

  dry_run_results_copies : MakesCopies (dry_run_results_copier lib)
  dry_run_results_copies h object v valid e =
      let (v1, e1, rest1) =
        and_then-some ((number_pointer lib).read h object.affected_nodes) _ v e in
      let (v2, e2, rest2) =
        and_then-some ((number_pointer lib).read h object.taints_to_add) _ v rest1 in
      let (v3, e3, rest3) =
        and_then-some ((number_pointer lib).read h object.taints_to_remove) _ v rest2 in
      let (v4, e4, rest4) =
        and_then-some ((number_pointer lib).read h object.risky_operations) _ v rest3 in
      then-Deep (number_pointer lib) number_pointer-IsDeep h h object.affected_nodes v1 _ _ valid
        (λ p z q. q) e1
        (λ y1 h1 w1 s1.
          then-Deep (number_pointer lib) number_pointer-IsDeep h h1 object.taints_to_add v2 _ _ w1
            s1 e2
            (λ y2 h2 w2 s2.
              then-Deep (number_pointer lib) number_pointer-IsDeep h h2 object.taints_to_remove v3 _
                _ w2 s2 e3
                (λ y3 h3 w3 s3.
                  then-Deep (number_pointer lib) number_pointer-IsDeep h h3 object.risky_operations
                    v4 _ _ w3 s3 e4
                    (λ y4 h4 w4 s4.
                      pure-Deep _ h4 _ w4 (λ k r1 r2 r3 r4. rw (r1, r2, r3, r4) rest4)))))

  pub dry_run_results-IsDeep : IsDeep (dry_run_results_copier lib)
  dry_run_results-IsDeep = record {
    stable = dry_run_results_stable;
    copies = dry_run_results_copies;
  }

  failure_stable : IsStable (failure_copier lib)
  failure_stable h k object v kept e =
      let (v1, e1, rest1) = and_then-some (lib.time.read h object.last_evaluation_time) _ v e in
      rw (deep.time.stable h k object.last_evaluation_time v1 kept e1) rest1

  failure_copies : MakesCopies (failure_copier lib)
  failure_copies h object v valid e =
      let (v1, e1, rest1) = and_then-some (lib.time.read h object.last_evaluation_time) _ v e in
      then-Deep lib.time deep.time h h object.last_evaluation_time v1 _ _ valid (λ p z q. q) e1
        (λ y1 h1 w1 s1. pure-Deep _ h1 _ w1 (λ k r1. rw (r1) rest1))

  pub failure-IsDeep : IsDeep (failure_copier lib)
  failure-IsDeep = record { stable = failure_stable; copies = failure_copies }

  result_slice-IsDeep : IsDeep (result_slice lib)
  result_slice-IsDeep = slice-IsDeep (result_kind T) (result_copier lib) plain-IsDeep

  evaluation_stable : IsStable (evaluation_copier lib)
  evaluation_stable h k object v kept e =
      let (v1, e1, rest1) =
        and_then-some ((result_slice lib).read h object.condition_results) _ v e in
      let (v2, e2, rest2) = and_then-some (lib.time.read h object.last_evaluation_time) _ v rest1 in
      rw
        (
          result_slice-IsDeep.stable h k object.condition_results v1 kept e1,
          deep.time.stable h k object.last_evaluation_time v2 kept e2,
        )
        rest2

  evaluation_copies : MakesCopies (evaluation_copier lib)
  evaluation_copies h object v valid e =
      let (v1, e1, rest1) =
        and_then-some ((result_slice lib).read h object.condition_results) _ v e in
      let (v2, e2, rest2) = and_then-some (lib.time.read h object.last_evaluation_time) _ v rest1 in
      then-Deep (result_slice lib) result_slice-IsDeep h h object.condition_results v1 _ _ valid
        (λ p z q. q) e1
        (λ y1 h1 w1 s1.
          then-Deep lib.time deep.time h h1 object.last_evaluation_time v2 _ _ w1 s1 e2
            (λ y2 h2 w2 s2. pure-Deep _ h2 _ w2 (λ k r1 r2. rw (r1, r2) rest2)))

  pub evaluation-IsDeep : IsDeep (evaluation_copier lib)
  evaluation-IsDeep = record { stable = evaluation_stable; copies = evaluation_copies }

  pub text_slice-IsDeep : IsDeep (text_slice lib)
  text_slice-IsDeep = slice-IsDeep (text_kind T) plain plain-IsDeep

  pub failure_slice-IsDeep : IsDeep (failure_slice lib)
  failure_slice-IsDeep = slice-IsDeep (failure_kind T) (failure_copier lib) failure-IsDeep

  pub evaluation_slice-IsDeep : IsDeep (evaluation_slice lib)
  evaluation_slice-IsDeep =
      slice-IsDeep (evaluation_kind T) (evaluation_copier lib) evaluation-IsDeep

  pub requirement_slice-IsDeep : IsDeep (requirement_slice lib)
  requirement_slice-IsDeep = slice-IsDeep (requirement_kind T) (requirement_copier lib) plain-IsDeep
