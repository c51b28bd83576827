-- ===== src/Jobs.antt =====
-- internal/core/jobs: the durable job queue, its worker and its schedules.
pub mod Types
pub mod Queue
pub mod Worker
pub mod Rows
pub mod Steps
pub mod Kept
pub mod Transitions
pub mod Lifecycle
pub mod Ownership
pub mod Retries
pub mod Due
pub mod Idempotency
pub mod Bits
pub mod Cron
pub mod Schedules
pub mod Slots
mod Tests
