-- ===== src/ReviewBundle.antt =====
-- src/oj_checker/review_bundle.py: the signed review bundle. Envelope verifies the signature and then
-- parses the signed bytes, Payload validates what they say, Request joins the two and makes a
-- submission of a verified bundle.
pub mod Checks
pub mod Base64
pub mod Envelope
pub mod Payload
pub mod Request
