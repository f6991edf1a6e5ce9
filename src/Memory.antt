-- ===== src/Memory.antt =====
-- api/v1alpha1/zz_generated.deepcopy.go over a memory with pointers, and the rule cache on it.
pub mod Heap
pub mod Copies
pub mod Objects
pub mod Entries
pub mod Rules
pub mod RuleCache
