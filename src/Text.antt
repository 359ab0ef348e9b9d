-- ===== src/Text.antt =====
-- What the program calls of Go's `strings` and `path` packages, over byte strings.
mod Defs
pub mod Split
pub mod Clean
pub mod Laws
unfoldable pub use Defs.*
