-- ===== src/Store.antt =====
-- src/ai_runtime/store/event_store.py, by parts: exceptions and validation.
pub mod Errors
mod Tests
pub mod Event
pub mod Table
pub mod Append
pub mod Read
pub mod Writer
