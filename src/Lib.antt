-- ===== src/Lib.antt =====
-- Open Chords, a desktop program that shows the chords, bars, sections and lyrics of a recording
-- and lets its user correct them: its domain library, the drafts of its editor, and its sessions
-- with the process that analyses a recording.
--
-- A project holds analysis revisions, each a timeline in samples, lyrics documents with their
-- alignments, and edit layers. An edit layer is a tree of transactions over one revision. The
-- active view names a revision, a layer, a position in it and an alignment; the effective timeline
-- is the revision's after the transactions from the root of the tree to that position. A project is
-- validated when it is read or stored; a projection is validated again when it is made. Practice
-- and the workspace read the effective timeline and show its chords as the view presents them, with
-- diagrams; the editor drafts a transaction and checks the project that has it; the review of old
-- edits maps those of a layer onto another revision. An analysis is the artifact of a session with
-- a process, the sidecar, over framed messages on a pipe.
--
-- Files, with the code they model:
--   Prelude: texts, lists, maps and results that may be errors, as the code uses them.
--   Schema: the records of packages/domain/src/schema.ts and packages/domain/src/alignment.ts.
--   Invariants: packages/domain/src/invariants.ts. Checks has the helpers, Timeline
--     validateTimelineInvariants, Lyrics validateLyricsAlignmentInvariants, Anchors, Histories,
--     Documents and Project the parts of validateProjectInvariants.
--   Projection: packages/domain/src/projection.ts. Chords, Bars and Apply have the cases of
--     applyOperation, Chain the walk over the history, Materialize materializeEffectiveTimeline,
--     Committed validateCommittedEditLayerProjections.
--   Parsing: parseProjectContract of packages/domain/src/index.ts.
--   Presentation: packages/domain/src/presentation.ts.
--   Diagrams: packages/domain/src/diagrams.ts and packages/domain/src/diagram-packs.ts.
--   LyricsAnchors: resolveLyricsAnchors of packages/domain/src/alignment.ts.
--   EditHistory: reviewEditMapping of packages/domain/src/edit-history.ts.
--   Practice: packages/domain/src/practice.ts.
--   Workspace: apps/desktop/src/renderer/workspace-timeline.ts.
--   Draft: apps/desktop/src/renderer/editor-draft.ts. The module itself has the creation of a draft and
--     its operations, Grid the grid of its boundaries, Update the check of a draft and the methods,
--     Durations what is shown.
--   Lrc: packages/domain/src/lrc.ts, packages/domain/src/export-text.ts and the losses of
--     packages/domain/src/export-losses.ts. Its Reader models no code: it is a reader of the texts that
--     are printed, which their theorem is stated with.
--   Sidecar: apps/desktop/src/main/sidecar-protocol.ts. Frames has FrameDecoder and the functions over
--     frames, Messages the checks of a message, Inbox and Protocol OutputInbox, runSidecarProtocol and
--     requestCooperativeCancellation, Client the guard and createPromiseSidecarClient of
--     apps/desktop/src/main/sidecar-session.ts.
--   Tests: a sample project, and the theorems at concrete inputs.
--
-- Values: a sample, a position or a count is a native number; an identifier, a hash or a date is a
-- text. `throw` is the error of a Result, `undefined` is `none`, and a function that changes a copy
-- of its argument in place gives the changed copy back. A zod discriminated union is a data type
-- with a constructor for each of its kinds. The value of an evidence record and the extensions of a
-- project, which the code never looks into, are texts; the speed of practice is a fraction.
--
-- Parameter of the domain library: `collate`, the test that one identifier comes before another by
-- `localeCompare`, whose order is that of the platform.
--
-- In a draft, `accepts` is the schema of zod on the project that a draft is checked in. The suffix
-- of the id of the check has fuel for one more than the project has transactions.
--
-- The session with the analysis process is a machine: a step is one of the environment's (a message
-- arrives in the inbox, the process closes its output, a write ends, a timer runs out, a signal is
-- aborted) or the function going on until it waits again. The writes of the start frame and of the
-- cancel frame are waits that no timer bounds. The parameters are `parse` and `stringify`, the JSON
-- of the runtime over bytes, and `validate`, the schema of a message. The clock is left out: a timer
-- runs out while the function waits or does not. The loop of the decoder has fuel for a round for each byte
-- of its buffer, and one more; a round takes four bytes at least, so that it ends.
--
-- Bounds: the walk over a history (in the projection, in the review of a mapping and for anchors),
-- a loop whose length no counter bounds, has fuel for two rounds more than the layer has
-- transactions. The parents that validation accepts stand earlier in the list, so that a walk over
-- a validated layer has a round for each transaction at most and one in which it ends; a longer
-- walk has met an identifier twice and never ends, which is the error `endless`.
--
-- Where the code compares two values by their canonical JSON text, the model compares the values.
-- Every value of the model has been parsed: the bounds, patterns and defaults of the zod schemas
-- are not modelled, nor are the calls that parse a value again. The other packages, the rest of the
-- Electron processes and of the renderer, the launchers of the sidecar, createEffectSidecarClient
-- (the same client over a library of effects) and the tools are not modelled.
pub mod Diagrams
pub mod Draft
pub mod EditHistory
pub mod Invariants
pub mod Lrc
pub mod LyricsAnchors
pub mod Parsing
pub mod Practice
pub mod Prelude
pub mod Presentation
pub mod Projection
pub mod Schema
pub mod Sidecar
pub mod Tests
pub mod Workspace
