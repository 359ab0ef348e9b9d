-- ===== src/Values.antt =====
-- types.go: values between Go and PHP.
pub mod Defs
pub mod Convert
pub mod RoundTrip
mod Examples
