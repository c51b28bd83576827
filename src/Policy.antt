-- ===== src/Policy.antt =====
-- internal/core/policy: plugin state, budgets and spend reservations.
pub mod Types
pub mod Queries
pub mod Admin
pub mod Store
pub mod View
pub mod Enabling
pub mod Admission
pub mod Rejection
pub mod Overflow
pub mod Commit
pub mod Settlement
pub mod Overcharge
pub mod Automation
pub mod History
mod Tests
