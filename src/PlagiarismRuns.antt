-- ===== src/PlagiarismRuns.antt =====
-- src/oj_checker/plagiarism_runs.py: the persistent queue of plagiarism runs. Its records and files are
-- those of the review runs; what the module does with them is modelled here.
pub mod Records
pub mod Operations
pub mod Retries
pub mod Execution
