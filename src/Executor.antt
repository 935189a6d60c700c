-- ===== src/Executor.antt =====
-- executor/: where code is executed.
pub mod Container
pub mod Sandbox
pub mod Runtimes
pub mod Names
pub mod Routing
