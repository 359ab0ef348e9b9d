-- ===== src/Init/Lifecycle.antt =====
-- frankenphp.go: `Init` and `Shutdown` over the globals of the package.
mod Defs
pub mod Rest
pub mod Start
pub mod Runs
pub mod Hooks
unfoldable pub use Defs.*
