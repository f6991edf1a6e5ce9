-- ===== src/Lib.antt =====
-- Verification of the node readiness controller.
--
-- The controller puts a taint on the nodes that a NodeReadinessRule selects and that miss one of
-- the conditions it asks for, and takes the taint off when they have them all. Two reconcilers do
-- this, one for changes of rules and one for changes of nodes; they share a cache of rules and the
-- evaluation of one rule on one node. A webhook decides which rules are admitted.
--
-- Files, and the code that they are about:
--   Prelude      lists, maps and texts over the native numbers
--   Api          api/v1alpha1/nodereadinessrule_types.go, and the fields of a node that are read
--   Platform     the API client, RetryOnConflict, selectors, the clock and the order of a range:
--                code outside the repository, as the record Client of parameters, with its
--                documented behaviour as the named hypotheses of Platform/Laws
--   NodeController  internal/controller/node_controller.go
--     Taints, Conditions   hasTaintBySpec, addTaintBySpec, removeTaintBySpec, getConditionStatus
--     Bootstrap            isBootstrapCompleted, markBootstrapCompleted
--     Events               the update predicate, conditionsEqual, taintsEqual, labelsEqual
--     Process              processNodeAgainstAllRules, NodeReconciler.Reconcile
--   RuleController  internal/controller/nodereadinessrule_controller.go
--     Status               updateNodeEvaluationStatus, and recordNodeFailure of node_controller.go
--     Evaluate             evaluateRuleForNode
--     Cache, Finalizer     the rule cache, ruleAppliesTo, getApplicableRulesForNode, finalizers
--     Selector             nodeSelectorChanged, stringMapEqual
--     Process, DryRun      processAllNodesForRule, processDryRun
--     Cleanup, Persist     cleanupTaintsForRule, cleanupNodesAfterSelectorChange,
--                          cleanupDeletedNodes, updateRuleStatus
--     Reconcile            RuleReconciler.Reconcile, a chain of steps that may stop with a result
--   Webhook      internal/webhook/nodereadinessgaterule_webhook.go
--     Policy               the rules on the server over a history of requests
--   System       the two reconcilers, the switch and other writers as the steps of one system
--     Trace                the calls that the controller is allowed, as a relation on worlds
--     Passes, Writes       the two Reconcile methods against it
--   Startup      cmd/main.go with the code that it runs before the manager starts
--     Info, Registration   internal/info/version.go, api/v1alpha1/groupversion_info.go, and the
--                          SetupWithManager functions of the reconcilers and the webhook
--     Main                 init and main of cmd/main.go
--   Memory       a memory with pointers, and what the code does on it
--     Heap, Copies         cells, programs that may fault, copies of slices and of pointers
--     Objects, Entries, Rules   api/v1alpha1/zz_generated.deepcopy.go: the types as they lie in
--                          memory, and DeepCopyInto, DeepCopy and DeepCopyObject of each
--     RuleCache            updateRuleCache, getCachedRule, removeRuleFromCache and
--                          getApplicableRulesForNode on a map to pointers,
--                          against the map of values of RuleController/Cache
--   Tests        a cluster of two nodes and one rule, on which the definitions are run
--
-- How the code is modelled. A function that calls the server takes the world and gives the next
-- one; what other writers do between two calls is part of the world. A function that mutates the
-- rule or the node that it is given returns it, also on the paths where a call fails. The cached
-- rules are mutated through their pointers, so the model writes them back under their name; this,
-- and reading a copy as the value itself, is what Memory is about. An error is a value with the
-- texts that wrap it. Counters of type int32 and int are bit patterns modulo 2 ^ 32 and 2 ^ 64.
-- The only fuel is that of the decimal digits of a counter: ten digits are enough below 2 ^ 32.
--
-- What is not modelled. A run of a reconciler is one step of System: two reconcilers at work at
-- once, and the mutex of the cache, are not modelled, and other writers act between two runs or
-- inside the calls. Nil and empty maps and slices are one, as are nil and empty texts; a parsed
-- selector is never nil; the time at which a taint was added is left out, since the code never
-- reads it. The libraries that main calls are the parameters of Startup, and flags that do not
-- parse are left out. Log messages are left out, but for the version. In Memory, the structs of
-- the Kubernetes libraries and their copies are parameters, a nil slice reads like an empty one, a
-- slice is a whole array and a pointer leads to an array of one: windows into an array, spare
-- capacity and pointers to an item are not modelled.
pub mod Prelude
pub mod Api
pub mod Platform
pub mod NodeController
pub mod RuleController
pub mod Webhook
pub mod System
pub mod Startup
pub mod Memory
mod Tests
