-- ===== src/Runtime.antt =====
-- The runtime of the proxies: failures, routing, streams and serialization (runtime/).
pub mod Fallback
pub mod Scheduler
pub mod Streaming
pub mod Serialization
pub mod Interceptor
pub mod Hooks
