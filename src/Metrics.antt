-- ===== src/Metrics.antt =====
-- metrics.go: the Prometheus collectors.
mod Defs
pub mod Safety
mod Examples
unfoldable pub use Defs.*
