-- ===== src/Sapi.antt =====
-- context.go and frankenphp.go: the context of one request, and what PHP asks of it while it runs.
pub mod Context
pub mod Output
pub mod Body
pub mod Header
pub mod Sound
pub mod Lifetime
mod Examples
