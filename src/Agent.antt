-- ===== src/Agent.antt =====
-- internal/agent: the runs of the analysis agent.
pub mod Store
pub mod Report
pub mod Orchestrator
pub mod Worker
