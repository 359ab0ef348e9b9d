-- ===== src/Init.antt =====
-- frankenphp.go: the checks that Validate() and Init() make before anything starts.
pub mod MaxThreads
pub mod MaxThreadsLaws
pub mod Lifecycle
mod Examples
