-- ===== src/Shared.antt =====
-- packages/shared: the types and pure functions that the API, the worker and the bot share.
pub mod Levels
pub mod Events
mod Tests
