-- ===== src/Upstream.antt =====
-- src/cfproxy/upstream/client.py
pub mod Client
pub mod Auth
