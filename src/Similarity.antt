-- ===== src/Similarity.antt =====
-- src/oj_checker/similarity.py: the documents, their shingles, and the two candidate searches.
pub mod Data
pub mod Shingles
pub mod Target
pub mod Corpus
