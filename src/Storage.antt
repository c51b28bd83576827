-- ===== src/Storage.antt =====
-- internal/core/storage: the authorizer of plugin SQL, and migrations.
pub mod Authorizing
pub mod Foreign
pub mod Migrating
pub mod Recorded
pub mod Applying
pub mod Leaving
pub mod Rerun
mod Tests
pub mod Ended
