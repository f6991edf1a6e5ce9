-- ===== src/RuleController/Status/Laws.antt =====
-- About updateNodeEvaluationStatus and recordNodeFailure: what a reader of the status finds.
use node_readiness_controlle.Prelude.{
  ℕ, String, false, List, [], ◌∷◌, ◌++◌, Option, none, some, ◌==◌, ◌≡◌, refl, eq_iff, arith,
  if◌then◌else◌, Bool-cases, inl, inr,
}
use node_readiness_controlle.Api.{
  TaintStatus, ConditionEvaluationResult, NodeEvaluation, NodeFailure, NodeReadinessRule,
}
use node_readiness_controlle.RuleController.Status.{
  upsert_evaluation, update_node_evaluation_status, other_failures, record_node_failure,
}

-- The entry that a reader finds for a node: the first one with its name.
abbrev pub find_evaluation : String → List NodeEvaluation → Option NodeEvaluation
find_evaluation n [] = none
find_evaluation n (e ∷ rest) = if e.node_name == n then some e else find_evaluation n rest

abbrev pub find_failure : String → List NodeFailure → Option NodeFailure
find_failure n [] = none
find_failure n (e ∷ rest) = if e.node_name == n then some e else find_failure n rest

-- No node has two evaluations; no node has two failures.
abbrev pub IsDistinct : List NodeEvaluation → Type 0
IsDistinct [] = Unit
IsDistinct (e ∷ rest) = (find_evaluation e.node_name rest ≡ none) × IsDistinct rest

abbrev pub HasDistinctFailures : List NodeFailure → Type 0
HasDistinctFailures [] = Unit
HasDistinctFailures (e ∷ rest) = (find_failure e.node_name rest ≡ none) × HasDistinctFailures rest

-- The entry of a node after its evaluation.
abbrev pub evaluation_of :
    String → List ConditionEvaluationResult → TaintStatus → ℕ → NodeEvaluation
evaluation_of n results taint_status now = record {
  node_name = n;
  condition_results = results;
  taint_status = some taint_status;
  last_evaluation_time = now;
}

module _ (n : String) (results : List ConditionEvaluationResult) (taint_status : TaintStatus)
    (now : ℕ) where
  pub find-upsert :
      (m : String) (l : List NodeEvaluation)
      → find_evaluation m (upsert_evaluation n results taint_status now l)
        ≡ (if n == m then some (evaluation_of n results taint_status now) else find_evaluation m l)
  unfolding upsert_evaluation
  find-upsert m [] = refl
  find-upsert m (e ∷ l) =
      ground (arith, eq_iff e.node_name n, eq_iff e.node_name m, eq_iff n m, find-upsert m l)

  pub upsert-IsDistinct :
      (l : List NodeEvaluation)
      → IsDistinct l
      → IsDistinct (upsert_evaluation n results taint_status now l)
  unfolding upsert_evaluation
  upsert-IsDistinct [] h = (refl, tt)
  upsert-IsDistinct (e ∷ l) h = ground (
    arith,
    eq_iff e.node_name n,
    eq_iff n e.node_name,
    upsert-IsDistinct l h.1,
    find-upsert e.node_name l,
  )

pub find_failure-other_failures :
    (n m : String) (l : List NodeFailure)
    → find_failure m (other_failures n l) ≡ (if n == m then none else find_failure m l)
find_failure-other_failures n m [] = ground arith
find_failure-other_failures n m (e ∷ l) = ground (
  arith,
  eq_iff e.node_name n,
  eq_iff e.node_name m,
  eq_iff n m,
  find_failure-other_failures n m l,
)

find_failure-append_absent :
    (m : String) (l : List NodeFailure) (x : NodeFailure)
    → find_failure m l ≡ none
    → find_failure m (l ++ x ∷ []) ≡ (if x.node_name == m then some x else none)
find_failure-append_absent m [] x h = refl
find_failure-append_absent m (e ∷ l) x h = ground (arith, find_failure-append_absent m l x)

find_failure-append_other :
    (m : String) (l : List NodeFailure) (x : NodeFailure)
    → (x.node_name == m) ≡ false
    → find_failure m (l ++ x ∷ []) ≡ find_failure m l
find_failure-append_other m [] x h = ground arith
find_failure-append_other m (e ∷ l) x h = ground (arith, find_failure-append_other m l x)

other_failures-HasDistinctFailures :
    (n : String) (l : List NodeFailure)
    → HasDistinctFailures l
    → HasDistinctFailures (other_failures n l)
other_failures-HasDistinctFailures n [] h = tt
other_failures-HasDistinctFailures n (e ∷ l) h =
    ground (
      arith,
      other_failures-HasDistinctFailures n l h.1,
      find_failure-other_failures n e.node_name l,
    )

append-HasDistinctFailures :
    (l : List NodeFailure) (x : NodeFailure)
    → HasDistinctFailures l
    → find_failure x.node_name l ≡ none
    → HasDistinctFailures (l ++ x ∷ [])
append-HasDistinctFailures [] x h e = (refl, tt)
append-HasDistinctFailures (y ∷ l) x h e = ground (
  arith,
  eq_iff y.node_name x.node_name,
  eq_iff x.node_name y.node_name,
  find_failure-append_absent y.node_name l x h.0,
  append-HasDistinctFailures l x h.1,
)

-- After a failure is recorded, a reader finds the new entry for its node, and for every other
-- node the entry that was there.
pub find_failure-record :
    (rule : NodeReadinessRule) (n reason message : String) (now : ℕ) (m : String)
    → find_failure m (record_node_failure rule n reason message now).status.failed_nodes ≡ (
        if n == m
        then some (record {
          node_name = n;
          reason = reason;
          message = message;
          last_evaluation_time = now;
        })
        else find_failure m rule.status.failed_nodes)
unfolding record_node_failure
find_failure-record rule n reason message now m = elim (Bool-cases (n == m)) [
  | inl same ↦ ground (
    arith,
    find_failure-append_absent m (other_failures n rule.status.failed_nodes) added,
    find_failure-other_failures n m rule.status.failed_nodes,
  )
  | inr apart ↦ ground (
    arith,
    find_failure-append_other m (other_failures n rule.status.failed_nodes) added,
    find_failure-other_failures n m rule.status.failed_nodes,
  )
]
  where
    added : NodeFailure
    added = record { node_name = n; reason = reason; message = message; last_evaluation_time = now }

pub record_node_failure-HasDistinctFailures :
    (rule : NodeReadinessRule) (n reason message : String) (now : ℕ)
    → HasDistinctFailures rule.status.failed_nodes
    → HasDistinctFailures (record_node_failure rule n reason message now).status.failed_nodes
unfolding record_node_failure
record_node_failure-HasDistinctFailures rule n reason message now h =
    append-HasDistinctFailures (other_failures n rule.status.failed_nodes) _
      (other_failures-HasDistinctFailures n rule.status.failed_nodes h)
      (ground (arith, eq_iff n n, find_failure-other_failures n n rule.status.failed_nodes))

-- After an evaluation is recorded, a reader finds the new entry for its node, and for every other
-- node the entry that was there.
pub find_evaluation-update :
    (rule : NodeReadinessRule) (n : String) (results : List ConditionEvaluationResult)
    (taint_status : TaintStatus) (now : ℕ) (m : String)
    → find_evaluation m
        (update_node_evaluation_status rule n results taint_status now).status.node_evaluations
      ≡ (if n == m
          then some (evaluation_of n results taint_status now)
          else find_evaluation m rule.status.node_evaluations)
unfolding update_node_evaluation_status
find_evaluation-update rule n results taint_status now m =
    find-upsert n results taint_status now m rule.status.node_evaluations

pub update_node_evaluation_status-IsDistinct :
    (rule : NodeReadinessRule) (n : String) (results : List ConditionEvaluationResult)
    (taint_status : TaintStatus) (now : ℕ)
    → IsDistinct rule.status.node_evaluations
    → IsDistinct
        (update_node_evaluation_status rule n results taint_status now).status.node_evaluations
unfolding update_node_evaluation_status
update_node_evaluation_status-IsDistinct rule n results taint_status now h =
    upsert-IsDistinct n results taint_status now rule.status.node_evaluations h
