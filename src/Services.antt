-- ===== src/Services.antt =====
-- The services of the management plane (src/cfproxy/services).
pub mod Credentials
pub mod Tokens
pub mod Login
pub mod AuditLogs
pub mod Tests
