-- ===== src/AuditRunner.antt =====
-- src/oj_checker/runner.py: an audit run.
pub mod Reviews
pub mod Resume
pub mod Duplicates
pub mod Plan
