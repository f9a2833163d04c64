-- ===== src/Tests.antt =====
-- Runs of the code at concrete inputs, and the theorems at such inputs.
pub mod Options
pub mod Patterns
pub mod Messages
pub mod Files
pub mod Functions
pub mod Including
pub mod Tuning
pub mod Styling
pub mod Processing
pub mod Naming
pub mod Nesting
