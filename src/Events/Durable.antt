-- ===== src/Events/Durable.antt =====
-- internal/core/events/durable.go: the names of durable subscriptions.
mod Subscribing
mod Dispatching
mod Operating
unfoldable pub use Subscribing.*
unfoldable pub use Dispatching.*
unfoldable pub use Operating.*
