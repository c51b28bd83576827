-- ===== src/Jobs/Worker.antt =====
-- internal/core/jobs/worker.go: the names of the claim and of the ends of an attempt.
mod Claiming
mod Attempts
unfoldable pub use Claiming.*
unfoldable pub use Attempts.*
