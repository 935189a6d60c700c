-- ===== src/Security.antt =====
-- security/: signatures, encryption, the audit log and the options of docker.
pub mod Signing
pub mod Crypto
pub mod Audit
pub mod Policy
mod Tests
