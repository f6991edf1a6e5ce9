-- ===== src/NodeController.antt =====
-- internal/controller/node_controller.go: what the controller does to one node, and the
-- reconciler that a change of a node triggers.
pub mod Taints
pub mod Conditions
pub mod Bootstrap
pub mod Events
pub mod Process
