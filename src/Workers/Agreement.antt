-- ===== src/Workers/Agreement.antt =====
-- frankenphp.go and worker.go: what `Validate` accepts against what `initWorkers` accepts.
pub mod Round
pub mod Forth
pub mod Back
