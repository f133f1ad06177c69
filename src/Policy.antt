-- ===== src/Policy.antt =====
-- policy/: the wake-up gate, the verification verdict, and what acts on it.
pub mod Gate
pub mod Verification
pub mod Watcher
pub mod Scheduler
