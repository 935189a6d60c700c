-- ===== src/Server/Auth.antt =====
-- server/auth.
pub mod RateLimiter
pub mod Tokens
