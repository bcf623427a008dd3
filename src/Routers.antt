-- ===== src/Routers.antt =====
-- The routes of src/cfproxy/routers other than those of the DNS records, and the exception handlers
-- of src/cfproxy/main.py around them.
pub mod Replies
pub mod Account
pub mod Upstreams
pub mod ScopedTokens
pub mod Logs
pub mod Application
pub mod Tests
