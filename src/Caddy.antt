-- ===== src/Caddy.antt =====
-- caddy: the module for the Caddy server, as far as it decides what runs and what is served.
pub mod Routes
pub mod Serving
pub mod RoutesLaws
pub mod Sources
pub mod Dispenser
pub mod Collect
pub mod CollectNames
pub mod SharedServers
pub mod CollectServers
pub mod ModuleConfig
pub mod FileNames
pub mod Provision
pub mod Start
pub mod StartLaws
pub mod ServerName
pub mod DocumentRoot
pub mod ModuleConfigLaws
mod Examples
pub mod Names
pub mod NamesLaws
pub mod Distinct
pub mod AppConfigLaws
pub mod AppConfig
pub mod WorkerConfig
pub mod WorkerConfigLaws
