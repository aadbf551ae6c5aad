-- ===== src/Examples.antt =====
-- The theorems at concrete inputs, and runs of the model.
mod Catalog
mod Store
mod Similarity
mod Execution
mod Runs
mod Ledger
mod Plagiarism
mod Tools
mod Reviewer
mod Bundles
mod Audit
mod Duplicates
mod Stream
