-- ===== src/Startup.antt =====
-- cmd/main.go and what it is built from: the version text, the API group, the registration of the
-- controllers and the order of the steps of main.
pub mod Info
pub mod Registration
pub mod Main
