-- ===== src/Agent.antt =====
-- agent/: the orchestration of agents and the routing of models.
pub mod Orchestrator
pub mod Router
mod Tests
