-- ===== src/Invariants.antt =====
-- packages/domain/src/invariants.ts: the checks that a project passes, and what they mean.
pub mod Checks
pub mod Gather
pub mod Timeline
pub mod Lyrics
pub mod Anchors
pub mod Histories
pub mod Documents
pub mod Project
