-- ===== src/Examples.antt =====
-- Concrete runs of the model: tests, and the theorems at concrete inputs.
pub mod Fixtures
pub mod Claims
pub mod Codes
pub mod Boot
pub mod Keys
pub mod Payloads
pub mod Tools
pub mod Lifetimes
pub mod Bindings
pub mod Times
