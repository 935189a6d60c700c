-- ===== src/Shared.antt =====
-- shared/: what the client and the server have in common.
pub mod Json
pub mod Protocol
