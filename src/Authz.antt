-- ===== src/Authz.antt =====
-- The decision layer (src/cfproxy/authz).
pub mod Fqdn
pub mod Pattern
pub mod Scope
pub mod Authorizer
pub mod Tests
