-- ===== src/Ai.antt =====
-- internal/core/ai.
pub mod Route
pub mod Compile
pub mod Cost
pub mod Estimate
pub mod Planned
pub mod Records
pub mod Dispatch
pub mod Calls
pub mod Recovery
pub mod Requests
pub mod Accounts
pub mod Waiting
pub mod Ledger
pub mod Bounded
pub mod Finished
pub mod Served
pub mod Recovered
pub mod Restart
mod Samples
mod Tests
