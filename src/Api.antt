-- ===== src/Api.antt =====
-- The objects that the controller and the webhook work on: the fields of the Kubernetes types
-- that the source reads or writes, and the types of api/v1alpha1/nodereadinessrule_types.go.
mod Core
mod Rule
pub use Core.*
pub use Rule.*
