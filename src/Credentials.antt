-- ===== src/Credentials.antt =====
-- internal/core/credentials.
pub mod Envelope
pub mod Binding
pub mod RoundTrip
mod Tests
