-- ===== src/AgentRuns.antt =====
-- src/oj_checker/agent_runs.py: the persistent queue of review runs.
pub mod Data
pub mod Service
pub mod Reconcile
pub mod Worker
pub mod Growth
pub mod System
