-- ===== src/Projection.antt =====
-- packages/domain/src/projection.ts: how edits make the effective timeline of a project.
pub mod Values
pub mod Find
pub mod Chords
pub mod Bars
pub mod Apply
pub mod Chain
pub mod Materialize
pub mod Committed
pub mod Lookup
