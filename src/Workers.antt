-- ===== src/Workers.antt =====
-- worker.go, server.go and frankenphp.go: which workers a configuration may declare.
pub mod Declaration
pub mod Registry
pub mod Agreement
pub mod Servers
pub mod ServerLaws
mod Examples
