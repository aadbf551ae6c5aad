-- ===== src/AgentTools.antt =====
-- src/oj_checker/agent_tools.py: the read-only tools of the review agent over a prepared workspace.
pub mod Tree
pub mod Arguments
pub mod Paging
pub mod Listing
pub mod Reading
pub mod Broker
