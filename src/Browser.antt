-- ===== src/Browser.antt =====
-- internal/core/browser: the address checks of the proxy that the browser dials through.
pub mod Allowlist
pub mod Reach
pub mod Proxy
pub mod Public
mod Tests
