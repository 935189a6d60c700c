-- ===== src/Server/Services.antt =====
-- server/services/: what the REST routers answer with.
pub mod Builds
pub mod Execution
pub mod Packages
mod Tests
