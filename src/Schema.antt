-- ===== src/Schema.antt =====
-- packages/domain/src/schema.ts: the records of a project, one child for each group of schemata.
mod Timeline
mod Lyrics
mod Edits
mod Contract
pub use Timeline.*
pub use Lyrics.*
pub use Edits.*
pub use Contract.*
