-- ===== src/Session.antt =====
-- src/ai_runtime/runtime/sessions.py, by parts: the lifecycle table, the operations on one session,
-- and the reconciliation of all sessions after a restart.
pub mod State
pub mod Spec
pub mod Cell
pub mod Start
pub mod Reconcile
mod Tests
