-- ===== src/Server.antt =====
-- The server: its rate limiter, the connections of devices and its services.
pub mod Api
pub mod Auth
pub mod Services
pub mod Ws
