-- ===== src/Watcher.antt =====
-- internal/watcher/pattern.go: which file events reload the workers.
pub mod Braces
pub mod Match
pub mod MatchLaws
pub mod Parse
pub mod Reload
mod Examples
