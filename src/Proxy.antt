-- ===== src/Proxy.antt =====
-- The /client/v4 plane: the context of a request, the audit, and the queries.
pub mod Audit
pub mod Fixtures
pub mod Listing
pub mod Records
pub mod Tests
