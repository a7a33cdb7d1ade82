-- ===== src/Coordinator.antt =====
-- src/ai_runtime/runtime/coordinator.py, by parts.
pub mod World
pub mod Log
pub mod Guards
pub mod Plan
pub mod Writer
pub mod Implement
pub mod Review
pub mod Merge
pub mod Dispatch
mod Tests
