-- ===== src/Extgen.antt =====
-- internal/extgen: the extension generator's checks.
pub mod Validator
pub mod ValidatorLaws
pub mod Constants
pub mod ConstantLaws
mod Examples
