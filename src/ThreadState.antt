-- ===== src/ThreadState.antt =====
-- internal/state/state.go: the state of one PHP thread and the goroutines that wait for it.
mod Defs
pub mod Notify
pub mod Invariant
pub mod Request
mod Examples
unfoldable pub use Defs.*
