-- ===== src/Bot.antt =====
-- apps/bot/src/services: the decisions that the bot makes by itself.
pub mod Breaker
pub mod Limiter
pub mod Buttons
pub mod Joins
pub mod ConfigCache
pub mod ApiClient
pub mod Sync
pub mod Subscriber
pub mod Guilds
