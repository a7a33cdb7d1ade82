-- ===== src/Feature.antt =====
-- src/ai_runtime/events.py and src/ai_runtime/runtime/state.py: the events of one feature and the
-- state that they project to.
pub mod State
pub mod NewEvent
mod Tests
