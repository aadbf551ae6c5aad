-- ===== src/SubmissionStore.antt =====
-- src/oj_checker/submission_store.py: reading a submission's sources under path and size rules.
pub mod Base
pub mod Paths
pub mod Pattern
pub mod Limits
pub mod Files
pub mod Load
