-- ===== src/Events.antt =====
-- internal/core/events: the grammar of event types, and subscription patterns.
pub mod Pattern
pub mod Matching
pub mod Prefix
pub mod Log
pub mod Durable
pub mod Cleanup
pub mod World
pub mod Rows
pub mod Owed
pub mod Keeping
pub mod Positions
pub mod Polling
pub mod Settling
pub mod Delivery
pub mod Querying
pub mod Retained
pub mod Progress
pub mod Publishing
pub mod Live
pub mod Draining
mod Tests
