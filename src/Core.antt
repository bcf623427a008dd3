-- ===== src/Core.antt =====
-- The shared definitions of src/cfproxy/core.
pub mod CfErrors
pub mod Envelopes
pub mod Security
pub mod Crypto
