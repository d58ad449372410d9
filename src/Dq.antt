-- ===== src/Dq.antt =====
-- scripts/dq/: the audit of the stored data. The queries are run by a parameter.
pub mod Vocabulary
pub mod Rules
pub mod Comparators
pub mod Loaded
pub mod Answers
pub mod Scorecard
pub mod Streaks
pub mod Audit
pub mod Runs
pub mod Certify
pub mod Manifests
pub mod Contexts
pub mod Chunks
pub mod Checks
pub mod Recorded
pub mod Conserved
pub mod Certified
