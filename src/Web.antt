-- ===== src/Web.antt =====
-- internal/core/web.
pub mod Stream
pub mod Batches
pub mod Replay
pub mod Delivery
mod Tests
