-- ===== src/Tests/SampleLaws.antt =====
-- The sample client keeps the laws of Platform/Laws.antt.
use node_readiness_controlle.Prelude.{
  String, List, [], ◌≡◌, ◌≢◌, refl, arith, eq_iff, ap, subst, Bool-cases, inl, inr, ◌==◌, All,
}
use node_readiness_controlle.Api.{Taint, Node, NodeReadinessRule}
use node_readiness_controlle.Platform.{Error, Result, ok, err}
use node_readiness_controlle.Platform.Laws.{
  RetryLaw, RangeLaw, PatchLaw, ReadLaw, NodeStoreLaw, TaintStoreLaw, RuleStoreLaw, NodeWriteLaw,
  RuleCallLaw, AnnotationLaw, ConditionsLaw, last, HasDistinctNames,
}
use node_readiness_controlle.RuleController.Evaluate.Stored.{NodeLaws}
use node_readiness_controlle.Tests.Sample.{
  Cluster, sample, first_node, second_node, put_node, put_taints, get_node, get_rule, put_status,
}

pub sample_retry : RetryLaw sample
sample_retry fn w = last refl

pub sample_range : RangeLaw sample
sample_range w m e = (λ h. h, λ h. h)

put_node_lem :
    (node fresh : Node) (w w' : Cluster)
    → put_node node w ≡ (ok fresh, w')
    → (fresh.taints ≡ node.taints)
      × (fresh.name ≡ node.name)
      × (fresh.annotations ≡ node.annotations)
      × ((get_node node.name w').0 ≡ ok fresh)
put_node_lem node fresh w w' e =
    ground (arith, eq_iff node.name "worker-1", eq_iff node.name "worker-2")

put_taints_lem :
    (node fresh : Node) (w w' : Cluster)
    → put_taints node w ≡ (ok fresh, w')
    → (fresh.taints ≡ node.taints)
      × (fresh.name ≡ node.name)
      × ((get_node node.name w').0 ≡ ok fresh)
put_taints_lem node fresh w w' e =
    ground (arith, eq_iff node.name "worker-1", eq_iff node.name "worker-2")

pub sample_patch : PatchLaw sample
sample_patch base node fresh w w' e ne = let (t, n, g) = put_taints_lem node fresh w w' e in (t, n)

pub sample_reads : ReadLaw sample
sample_reads = record {
  get_rule_reads = λ n w. refl;
  get_node_reads = λ n w. refl;
  list_nodes_reads = λ w. refl;
  list_rules_reads = λ w. refl;
}

get_node_lem :
    (n : String) (node : Node) (w w' : Cluster)
    → get_node n w ≡ (ok node, w')
    → (node.name ≡ n) × (w' ≡ w)
get_node_lem n node w w' e = ground (arith, eq_iff n "worker-1", eq_iff n "worker-2")

pub sample_nodes : NodeStoreLaw sample
sample_nodes = record {
  get_node_name = λ n node w w' e. (get_node_lem n node w w' e).0;
  get_node_again = λ n node w w' e. ground (arith, (get_node_lem n node w w' e).1);
  update_node_stores =
      λ node stored w w' e. let (t, n, a, g) = put_node_lem node stored w w' e in (g, a);
}

put_node_others :
    (node : Node) (n : String) (w : Cluster)
    → node.name ≢ n
    → (get_node n (put_node node w).1).0 ≡ (get_node n w).0
put_node_others node n w ne = ground (
  arith,
  eq_iff node.name "worker-1",
  eq_iff node.name "worker-2",
  eq_iff n "worker-1",
  eq_iff n "worker-2",
)

put_taints_others :
    (node : Node) (n : String) (w : Cluster)
    → node.name ≢ n
    → (get_node n (put_taints node w).1).0 ≡ (get_node n w).0
put_taints_others node n w ne = ground (
  arith,
  eq_iff node.name "worker-1",
  eq_iff node.name "worker-2",
  eq_iff n "worker-1",
  eq_iff n "worker-2",
)

names_apart : ◌≢◌ {A = String} "worker-2" "worker-1"
names_apart = ground (arith, eq_iff "worker-2" "worker-1")

abbrev listed_or : List Node → Result (List Node) → List Node
listed_or nodes (ok found) = found
listed_or nodes (err e) = nodes

-- Each node of the listing is stored under its name.
abbrev AreStored : List Node × Cluster → Type 0
AreStored (nodes, w) =
    All (λ node. (get_node node.name w).0 ≡ ok node) nodes × HasDistinctNames nodes

list_nodes_lem :
    (nodes : List Node) (w w' : Cluster)
    → sample.list_nodes w ≡ (ok nodes, w')
    → AreStored (nodes, w')
list_nodes_lem nodes w w' e =
    subst AreStored (ap (λ out. (listed_or [] out.0, out.1)) e)
      ((refl, (refl, tt)), ((names_apart, tt), (tt, tt)))

update_status_lem :
    (rule stored : NodeReadinessRule) (w w' : Cluster)
    → put_status rule w ≡ (ok stored, w')
    → ((get_rule rule.name w').0 ≡ ok stored) × (stored.status ≡ rule.status)
update_status_lem rule stored w w' e =
    (ground (arith, eq_iff w.rule.name rule.name), ground (arith, eq_iff w.rule.name rule.name))

pub sample_taints : TaintStoreLaw sample
sample_taints = record {
  patch_node_stores =
      λ base node fresh w w' e ne. let (t, n, g) = put_taints_lem node fresh w w' e in g;
  patch_node_others = λ base node n w ne. put_taints_others node n w ne;
  list_nodes_current = λ nodes w w' e. list_nodes_lem nodes w w' e;
  update_rule_others = λ rule n w. refl;
}

pub sample_rules : RuleStoreLaw sample
sample_rules = record {
  get_rule_name = λ n rule w w' e. ground (arith, eq_iff w.rule.name n);
  get_rule_again = λ n rule w w' e. ground (arith, eq_iff w.rule.name n);
  update_status_stores = λ rule stored w w' e. update_status_lem rule stored w w' e;
}

put_node_fails :
    (node : Node) (n : String) (e : Error) (w w' : Cluster)
    → put_node node w ≡ (err e, w')
    → (get_node n w').0 ≡ (get_node n w).0
put_node_fails node n e w w' q =
    ground (arith, eq_iff node.name "worker-1", eq_iff node.name "worker-2")

pub sample_writes : NodeWriteLaw sample
sample_writes = record {
  get_node_name = λ n node w w' e. (get_node_lem n node w w' e).0;
  get_node_reads = λ n w. refl;
  update_node_taints =
      λ node stored w w' e. let (t, n, a, g) = put_node_lem node stored w w' e in (g, t);
  update_node_fails = put_node_fails;
  update_node_others = put_node_others;
}

put_status_node :
    (rule : NodeReadinessRule) (n : String) (w : Cluster)
    → (get_node n (put_status rule w).1).0 ≡ (get_node n w).0
put_status_node rule n w = ground arith

pub sample_calls : RuleCallLaw sample
sample_calls = record {
  get_rule_nodes = λ m n w. refl;
  update_status_nodes = put_status_node;
  list_nodes_nodes = λ n w. refl;
}

patched_annotations :
    (base : Node) (taints : List Taint) (n : String) (node : Node) (w : Cluster)
    → (get_node n w).0 ≡ ok node
    → (fresh : Node) × ((get_node n (put_taints (record base { taints = taints }) w).1).0
        ≡ ok fresh)
      × (fresh.annotations ≡ node.annotations)
patched_annotations base taints n node w e =
    let after = (put_taints (record base { taints = taints }) w).1 in
    elim (Bool-cases (n == "worker-1")) [
      | inl t ↦ (
        first_node after.first,
        ground arith,
        ground (arith, eq_iff base.name "worker-1", eq_iff base.name "worker-2"),
      )
      | inr f ↦ (
        second_node after.second,
        ground (arith, eq_iff n "worker-2"),
        ground (arith, eq_iff base.name "worker-1", eq_iff base.name "worker-2"),
      )
    ]

pub sample_annotations : AnnotationLaw sample
sample_annotations = record {
  update_node_annotations =
      λ node stored w w' e. let (t, n, a, g) = put_node_lem node stored w w' e in (g, a);
  patch_node_annotations = patched_annotations;
  update_rule_nodes = λ rule n w. refl;
}

pub sample_conditions : ConditionsLaw sample
sample_conditions base fresh taints w w' current e =
    ground (arith, eq_iff base.name "worker-1", eq_iff base.name "worker-2")

pub sample_laws : NodeLaws sample
sample_laws = record {
  patches = sample_patch;
  store = sample_taints;
  writes = sample_writes;
  retries = sample_retry;
}
