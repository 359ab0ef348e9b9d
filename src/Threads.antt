-- ===== src/Threads.antt =====
-- The PHP threads: pools, scaling, creation and the scripts of worker threads.
pub mod Pool
pub mod Scaling
pub mod ScalingLaws
pub mod Creation
pub mod WorkerScript
pub mod WorkerScriptLaws
pub mod Handoff
pub mod RegularThread
pub mod RegularThreadLaws
pub mod MainThread
pub mod MainThreadLaws
mod Examples
mod StartExamples
