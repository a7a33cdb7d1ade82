-- ===== src/FeatureSession.antt =====
-- src/ai_runtime/runtime/feature_sessions.py, by parts: the channel of structured results, the
-- declarations of adapters, and the factory of roots and forks.
pub mod Channel
pub mod Declaration
pub mod World
pub mod Factory
pub mod Fork
pub mod Events
pub mod Recovery
pub mod Reconcile
pub mod Implementation
mod Tests
mod FactoryTests
