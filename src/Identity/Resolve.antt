-- ===== src/Identity/Resolve.antt =====
-- server/internal/identity/resolve: which instrument the answers of the datasources name for a key.
pub mod Claim
pub mod Claims
pub mod Choose
pub mod Verdict
pub mod Gather
pub mod Merge
pub mod Choice
pub mod Candidate
