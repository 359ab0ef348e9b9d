-- ===== src/Dispatch.antt =====
-- threadregular.go and worker.go: how a request finds a thread.
pub mod Regular
pub mod Worker
pub mod WorkerLaws
mod Examples
