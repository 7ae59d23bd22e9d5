-- ===== src/Coordinator.antt =====
-- The coordinator: the phases of a cut over the journal, the adapters and the tagger
-- (crates/shipshape-core/src/release/coordinator.rs).
pub mod World
pub mod Phases
pub mod Tagging
pub mod Verify
pub mod Execute
pub mod Moves
pub mod Runs
pub mod Resolve
pub mod Tests
