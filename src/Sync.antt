-- ===== src/Sync.antt =====
-- The sync orchestrator (domain/store/sync-orchestrator.service.ts): `Tracks` splits the stores of
-- a full sync, `Log` is the table of runs with its lock, `Collect` how a
-- collection ends, `Run` the life of a run and of a track,
-- `Start` a sync of one store, and `Boot` the sweep of orphaned runs.
pub mod Tracks
pub mod Log
pub mod Collect
pub mod Run
pub mod Start
pub mod Boot
mod Tests
