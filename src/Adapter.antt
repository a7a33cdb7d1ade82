-- ===== src/Adapter.antt =====
-- src/ai_runtime/adapters: what the adapters of the agents' command-line tools do with the output of
-- a turn. Output has the structured result, Invoke the calls of the supervisor.
pub mod Output
pub mod Invoke
mod Tests
