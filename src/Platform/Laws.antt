-- ===== src/Platform/Laws.antt =====
-- The documented behaviour of the calls, as hypotheses for the theorems that need it.
use node_readiness_controlle.Prelude.{
  true, String, List, All, [], ◌∷◌, ◌≡◌, ◌≢◌, ◌↔◌, IsIn, StringMap,
}
use node_readiness_controlle.Api.{Taint, Node, NodeReadinessRule}
use node_readiness_controlle.Platform.Errors.{Error, Result, ok, err}
use node_readiness_controlle.Platform.Calls.{Client}

-- `retry.RetryOnConflict` calls the function again after a conflict, on the world as it is then,
-- and gives its last answer: a success, another error, or a conflict when the attempts are used up.
pub data Retried {W S : Type 0} (c : Client W S) (fn : W → Result (Unit {0}) × W)
    (out : Result (Unit {0}) × W) : W → Type 0 where
  last : {w : W} → fn w ≡ out → Retried c fn out w
  again :
      {e : Error} {w w' : W}
      → fn w ≡ (err e, w')
      → c.is_conflict e ≡ true
      → Retried c fn out w'
      → Retried c fn out w

-- No two nodes of the list have one name.
abbrev pub NotNamed : String → List Node → Type 0
NotNamed n = All (λ node. node.name ≢ n)

abbrev pub HasDistinctNames : List Node → Type 0
HasDistinctNames [] = Unit
HasDistinctNames (node ∷ rest) = NotNamed node.name rest × HasDistinctNames rest

module _ {W S : Type 0} (c : Client W S) where
  abbrev pub RetryLaw : Type 0
  RetryLaw = (fn : W → Result (Unit {0}) × W) (w : W) → Retried c fn (c.retry_on_conflict fn w) w

  -- A range over a map meets each of its entries, and nothing else.
  abbrev pub RangeLaw : Type 0
  RangeLaw =
      (w : W) (m : StringMap NodeReadinessRule) (e : String × NodeReadinessRule)
      → IsIn e (c.range_order w m) ↔ IsIn e m

  -- `spec.taints` is an atomic list: a patch that changes it and succeeds gives back the node
  -- with the list that was sent, and with its name.
  abbrev pub PatchLaw : Type 0
  PatchLaw =
      (base node fresh : Node) (w w' : W)
      → c.patch_node base node w ≡ (ok fresh, w')
      → node.taints ≢ base.taints
      → (fresh.taints ≡ node.taints) × (fresh.name ≡ node.name)

  -- The conditions of a node are a part of its status, which a patch of the taints leaves alone:
  -- a patch of the stored version gives them back.
  abbrev pub ConditionsLaw : Type 0
  ConditionsLaw =
      (base fresh : Node) (taints : List Taint) (w w' : W)
      → (c.get_node base.name w).0 ≡ ok base
      → c.patch_node base (record base { taints = taints }) w ≡ (ok fresh, w')
      → fresh.conditions ≡ base.conditions

  -- Reads leave the world as it is: no other writer runs meanwhile.
  pub record ReadLaw : Type 0 where
    pub get_rule_reads : (n : String) (w : W) → (c.get_rule n w).1 ≡ w
    pub get_node_reads : (n : String) (w : W) → (c.get_node n w).1 ≡ w
    pub list_nodes_reads : (w : W) → (c.list_nodes w).1 ≡ w
    pub list_rules_reads : (w : W) → (c.list_rules w).1 ≡ w

  -- The API server as a store of nodes, with no other writer at work: a read finds what was
  -- stored last, under its name.
  pub record NodeStoreLaw : Type 0 where
    pub get_node_name :
        (n : String) (node : Node) (w w' : W) → c.get_node n w ≡ (ok node, w') → node.name ≡ n
    pub get_node_again :
        (n : String) (node : Node) (w w' : W)
        → c.get_node n w ≡ (ok node, w')
        → (c.get_node n w').0 ≡ ok node
    pub update_node_stores :
        (node stored : Node) (w w' : W)
        → c.update_node node w ≡ (ok stored, w')
        → ((c.get_node node.name w').0 ≡ ok stored) × (stored.annotations ≡ node.annotations)

  -- The taints on the server, with no other writer at work: a patch stores the node that it gives
  -- back, and touches no other node; a listing shows each node once, as it is stored; and an
  -- update of a rule touches no node.
  pub record TaintStoreLaw : Type 0 where
    pub patch_node_stores :
        (base node fresh : Node) (w w' : W)
        → c.patch_node base node w ≡ (ok fresh, w')
        → node.taints ≢ base.taints
        → (c.get_node node.name w').0 ≡ ok fresh
    pub patch_node_others :
        (base node : Node) (n : String) (w : W)
        → node.name ≢ n
        → (c.get_node n (c.patch_node base node w).1).0 ≡ (c.get_node n w).0
    pub list_nodes_current :
        (nodes : List Node) (w w' : W)
        → c.list_nodes w ≡ (ok nodes, w')
        → All (λ node. (c.get_node node.name w').0 ≡ ok node) nodes × HasDistinctNames nodes
    pub update_rule_others :
        (rule : NodeReadinessRule) (n : String) (w : W)
        → (c.get_node n (c.update_rule rule w).1).0 ≡ (c.get_node n w).0

  -- The API server as a store of rules, with no other writer at work.
  pub record RuleStoreLaw : Type 0 where
    pub get_rule_name :
        (n : String) (rule : NodeReadinessRule) (w w' : W)
        → c.get_rule n w ≡ (ok rule, w')
        → rule.name ≡ n
    pub get_rule_again :
        (n : String) (rule : NodeReadinessRule) (w w' : W)
        → c.get_rule n w ≡ (ok rule, w')
        → (c.get_rule n w').0 ≡ ok rule
    pub update_status_stores :
        (rule stored : NodeReadinessRule) (w w' : W)
        → c.update_rule_status rule w ≡ (ok stored, w')
        → ((c.get_rule rule.name w').0 ≡ ok stored) × (stored.status ≡ rule.status)

  -- A write to a node, with no other writer at work: an update that succeeds stores the taints
  -- that it sends, one that fails stores nothing, and none touches another node.
  pub record NodeWriteLaw : Type 0 where
    pub get_node_name :
        (n : String) (node : Node) (w w' : W) → c.get_node n w ≡ (ok node, w') → node.name ≡ n
    pub get_node_reads : (n : String) (w : W) → (c.get_node n w).1 ≡ w
    pub update_node_taints :
        (node stored : Node) (w w' : W)
        → c.update_node node w ≡ (ok stored, w')
        → ((c.get_node node.name w').0 ≡ ok stored) × (stored.taints ≡ node.taints)
    pub update_node_fails :
        (node : Node) (n : String) (e : Error) (w w' : W)
        → c.update_node node w ≡ (err e, w')
        → (c.get_node n w').0 ≡ (c.get_node n w).0
    pub update_node_others :
        (node : Node) (n : String) (w : W)
        → node.name ≢ n
        → (c.get_node n (c.update_node node w).1).0 ≡ (c.get_node n w).0

  -- The calls about rules, and the listing of nodes, leave the nodes as they are.
  pub record RuleCallLaw : Type 0 where
    pub get_rule_nodes :
        (m n : String) (w : W) → (c.get_node n (c.get_rule m w).1).0 ≡ (c.get_node n w).0
    pub update_status_nodes :
        (rule : NodeReadinessRule) (n : String) (w : W)
        → (c.get_node n (c.update_rule_status rule w).1).0 ≡ (c.get_node n w).0
    pub list_nodes_nodes :
        (n : String) (w : W) → (c.get_node n (c.list_nodes w).1).0 ≡ (c.get_node n w).0

  -- The listing of nodes, and the patch of one, leave the rules as they are.
  pub record NodeCallLaw : Type 0 where
    pub list_nodes_rules :
        (m : String) (w : W) → (c.get_rule m (c.list_nodes w).1).0 ≡ (c.get_rule m w).0
    pub patch_node_rules :
        (base node : Node) (m : String) (w : W)
        → (c.get_rule m (c.patch_node base node w).1).0 ≡ (c.get_rule m w).0

  -- The annotations on the server, with no other writer at work: an update stores those that it
  -- sends, and a patch of the taints keeps those of every node.
  pub record AnnotationLaw : Type 0 where
    pub update_node_annotations :
        (node stored : Node) (w w' : W)
        → c.update_node node w ≡ (ok stored, w')
        → ((c.get_node node.name w').0 ≡ ok stored) × (stored.annotations ≡ node.annotations)
    pub patch_node_annotations :
        (base : Node) (taints : List Taint) (n : String) (node : Node) (w : W)
        → (c.get_node n w).0 ≡ ok node
        → (fresh : Node) × ((c.get_node n
              (c.patch_node base (record base { taints = taints }) w).1).0
            ≡ ok fresh)
          × (fresh.annotations ≡ node.annotations)
    pub update_rule_nodes :
        (rule : NodeReadinessRule) (n : String) (w : W)
        → (c.get_node n (c.update_rule rule w).1).0 ≡ (c.get_node n w).0
