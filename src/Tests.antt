-- ===== src/Tests.antt =====
-- Concrete runs of the model: the theorems at inputs that exercise the code, and plain tests.
pub mod Data
pub mod Tables
pub mod Logs
pub mod Flow
pub mod Work
pub mod Masking
pub mod Backends
pub mod Relay
pub mod Agents
pub mod Fixes
pub mod Executing
