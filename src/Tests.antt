-- ===== src/Tests.antt =====
-- Concrete runs of the model, and the theorems at concrete inputs.
pub mod Data
pub mod Runs
pub mod Examples
pub mod Remote
pub mod DataPlane
pub mod Cli
