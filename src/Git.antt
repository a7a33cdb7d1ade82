-- ===== src/Git.antt =====
-- src/ai_runtime/git/workspace.py, by parts.
pub mod Lease
pub mod Command
pub mod Workspace
mod Tests
