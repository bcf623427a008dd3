-- ===== src/Auth.antt =====
-- Who makes a request (src/cfproxy/auth).
pub mod ProxyAuth
pub mod OauthCf
pub mod Tests
