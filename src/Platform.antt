-- ===== src/Platform.antt =====
-- What the source calls and does not contain: errors as values, the API server behind
-- controller-runtime's client, label selectors, the retry of client-go, and the clock.
mod Errors
mod Calls
pub mod Laws
pub mod Retry
pub use Errors.*
pub use Calls.*
