-- ===== src/Webhook.antt =====
-- internal/webhook/nodereadinessgaterule_webhook.go: the validation of rules on admission.
pub mod Spec
pub mod Conflicts
pub mod Admission
pub mod Verdict
pub mod Accept
pub mod Policy
