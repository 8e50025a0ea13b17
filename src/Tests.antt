-- ===== src/Tests.antt =====
-- A sample project, tests of the definitions on it, and the theorems at concrete inputs.
mod Sample
mod Projects
mod Projection
mod Presentation
mod Practice
mod EditHistory
mod LyricsAnchors
mod Workspace
mod Sidecar
mod Draft
mod Lrc
