-- ===== src/Tests/SampleTraces.antt =====
-- The sample cluster under the calls of the controller: its rule keeps its taint.
use node_readiness_controlle.Prelude.{String, ◌≡◌, ◌==◌, refl, ap, ◌∙◌, sym, Bool-cases, inl, inr}
use node_readiness_controlle.Api.{Taint, Node, NodeReadinessRule}
use node_readiness_controlle.Platform.{ok}
use node_readiness_controlle.RuleController.Finalizer.{
  add_finalizer, remove_finalizer, finalizer_name, contains_finalizer,
}
use node_readiness_controlle.RuleController.Process.Laws.{ok_injective}
use node_readiness_controlle.NodeController.Bootstrap.{mark, annotation_key}
use node_readiness_controlle.NodeController.Taints.{with_taint, without_taint}
use node_readiness_controlle.System.Trace.{
  Trace, nothing, get_rule_call, list_nodes_call, get_node_call, add_taint_call, remove_taint_call,
  mark_call, add_finalizer_call, remove_finalizer_call, status_call,
}
use node_readiness_controlle.Tests.Sample.{
  Cluster, sample, put_node, put_taints, put_status, network_taint,
}

abbrev pub IsNetworkTaint : Taint → Type 0
IsNetworkTaint spec = spec ≡ network_taint

put_taints_rule : (node : Node) (w : Cluster) → (put_taints node w).1.rule ≡ w.rule
put_taints_rule node w = elim (Bool-cases (node.name == "worker-1")) [
  | inl a ↦ rw a refl
  | inr a ↦ elim (Bool-cases (node.name == "worker-2")) [
    | inl b ↦ rw (a, b) refl
    | inr b ↦ rw (a, b) refl
  ]
]

put_node_rule : (node : Node) (w : Cluster) → (put_node node w).1.rule ≡ w.rule
put_node_rule node w = elim (Bool-cases (node.name == "worker-1")) [
  | inl a ↦ rw a refl
  | inr a ↦ elim (Bool-cases (node.name == "worker-2")) [
    | inl b ↦ rw (a, b) refl
    | inr b ↦ rw (a, b) refl
  ]
]

put_status_spec : (r : NodeReadinessRule) (w : Cluster) → (put_status r w).1.rule.spec ≡ w.rule.spec
put_status_spec r w = elim (Bool-cases (w.rule.name == r.name)) [
  | inl a ↦ rw a refl
  | inr a ↦ rw a refl
]

abbrev HasNetworkTaint : Cluster → Type 0
HasNetworkTaint w = IsNetworkTaint w.rule.spec.taint

Trace-HasNetworkTaint :
    {start w : Cluster}
    → Trace sample IsNetworkTaint start w
    → HasNetworkTaint start
    → HasNetworkTaint w
unfolding add_finalizer remove_finalizer
Trace-HasNetworkTaint nothing h = h
Trace-HasNetworkTaint (get_rule_call n t) h = Trace-HasNetworkTaint t h
Trace-HasNetworkTaint (list_nodes_call t) h = Trace-HasNetworkTaint t h
Trace-HasNetworkTaint (get_node_call n t) h = Trace-HasNetworkTaint t h
Trace-HasNetworkTaint (add_taint_call node spec {w} m t) h =
    ap (λ r. r.spec.taint) (put_taints_rule (with_taint node spec) w) ∙ Trace-HasNetworkTaint t h
Trace-HasNetworkTaint (remove_taint_call node spec {w} m t) h =
    ap (λ r. r.spec.taint) (put_taints_rule (without_taint node spec) w) ∙ Trace-HasNetworkTaint t h
Trace-HasNetworkTaint (mark_call n r {node} {v} {w} t q) h =
    ap (λ x. x.spec.taint) (put_node_rule (mark (annotation_key r) node) w)
    ∙ ap (λ o. o.1.rule.spec.taint) (sym q)
    ∙ Trace-HasNetworkTaint t h
Trace-HasNetworkTaint (add_finalizer_call rule m t) h =
    elim (Bool-cases (contains_finalizer rule finalizer_name)) [ inl a ↦ rw a m | inr a ↦ rw a m ]
Trace-HasNetworkTaint (remove_finalizer_call rule m t) h = m
Trace-HasNetworkTaint (status_call n status {latest} {v} {w} t q) h =
    ap (λ s. s.taint) (put_status_spec (record latest { status = status }) w)
    ∙ ap (λ o. o.1.rule.spec.taint) (sym q)
    ∙ Trace-HasNetworkTaint t h

-- Whatever the controller has done, the rule that a read gives has the taint.
pub served_network :
    {start : Cluster}
    → HasNetworkTaint start
    → (n : String) (v w : Cluster) (rule : NodeReadinessRule) → Trace sample IsNetworkTaint start v
    → sample.get_rule n v ≡ (ok rule, w)
    → IsNetworkTaint rule.spec.taint
served_network h n v w rule t = elim (Bool-cases (v.rule.name == n)) [
  | inl a ↦ rw a (λ q.
      ap (λ r. r.spec.taint) (sym (ok_injective (ap (λ o. o.0) q))) ∙ Trace-HasNetworkTaint t h)
  | inr a ↦ rw a (λ q. cc (ap (λ o. o.0) q))
]
