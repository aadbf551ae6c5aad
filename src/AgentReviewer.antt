-- ===== src/AgentReviewer.antt =====
-- src/oj_checker/agent_reviewer.py: the bounded review of a workspace by a model with tools.
pub mod Report
pub mod Calls
pub mod Loop
pub mod Stream
