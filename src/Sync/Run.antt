-- ===== src/Sync/Run.antt =====
-- The life of one sync run and of a track (domain/store/sync-orchestrator.service.ts). Log lines,
-- log files and durations are left out. What the database says of a store, how its collection ends
-- and whether its row can be closed are arguments, in `Legs`.
pub mod Lifecycle
pub mod Totals
use text.Mathlib.Text.{◌==◌ as str_eq}
use whisky_scrapper_node.Prelude.{
  ℕ, ◌-◌, ◌+◌, String, max, Option, none, some, Bool, true, false, not, ◌&&◌, ◌||◌, List, [], ◌∷◌,
  if◌then◌else◌, ltb, filter, length, ◌++◌, map,
}
use whisky_scrapper_node.Sync.Tracks.{StoreListItem, build_tracks, chunkify}
use whisky_scrapper_node.Sync.Collect.{
  Collected, Collection, SiteResult, SyncConfig, collect, collected, failure, outcome_of,
  outcome_of_run, rejected, timeout_ms,
}
use whisky_scrapper_node.Sync.Log.{
  SyncLog, SyncOutcome, Failure, did_not_complete, threw, timed_out, listing_incomplete, pos,
  difference, try_start, finish, is_open,
}

-- What a run tells the metrics.
pub data SyncMetric : Type 0 where
  run_started : SyncMetric
  run_finished : String → Bool → SyncMetric
  items_written : String → SyncOutcome → SyncMetric

-- `runStoreSync`. The outcome is `none` where closing the row throws.
unfoldable pub run_store_sync :
    SyncConfig
    → StoreListItem
    → Collection
    → Bool
    → String
    → ℕ
    → List SyncLog
    → Option SyncOutcome × List SyncLog × List SyncMetric
run_store_sync config store c closes id now rows =
    let outcome = outcome_of_run (collect config store c) in
    let metrics =
      run_started
      ∷ run_finished store.slug outcome.success
      ∷ items_written store.slug outcome
      ∷ [] in
    if closes then (some outcome, finish id outcome now rows, metrics) else (none, rows, metrics)

-- Who holds the lock, as far as the message names it.
pub data Blocker : Type 0 where
  unnamed itself : Blocker
  sharing : Option String → SyncLog → Blocker

pub data SyncError : Type 0 where
  not_found not_active not_configured not_owned : SyncError
  duplicate : Blocker → SyncError

abbrev pub owned_by_ts : StoreListItem → Bool
owned_by_ts store = elim store.engine [ none ↦ false | some engine ↦ str_eq engine "ts" ]

-- `resolveSyncableStore`: the error, or `none` and the store may be synced.
unfoldable pub unsyncable : StoreListItem → Option SyncError
unsyncable store = if not store.active then some not_active else elim store.tier [
  | none ↦ some not_configured
  | some tier ↦ if owned_by_ts store then none else some not_owned
]

abbrev pub same_group : Option String → Option String → Bool
same_group (some g) (some h) = str_eq g h
same_group _ _ = false

abbrev pub blocks : StoreListItem → SyncLog → Bool
blocks store row = str_eq row.store_id store.id || same_group store.group row.group

-- `running.find(...)`.
abbrev pub first_blocker : StoreListItem → List SyncLog → Option SyncLog
first_blocker store [] = none
first_blocker store (row ∷ rows) = if blocks store row then some row else first_blocker store rows

unfoldable pub describe_blocker : StoreListItem → List SyncLog → Blocker
describe_blocker store rows = elim (first_blocker store (filter is_open rows)) [
  | none ↦ unnamed
  | some row ↦ if str_eq row.store_id store.id then itself else sharing store.group row
]

-- What surrounds the runs: the stores of the database, their collections, whether a row can be
-- closed, the identifiers of new rows, this instance and the time.
pub record Legs : Type 0 where
  pub find : String → Option StoreListItem
  pub collection : String → Collection
  pub closes : String → Bool
  pub new_id : String → String
  pub owner : String
  pub now : ℕ

-- `acquireRun`: the error, or the identifier of the open row.
unfoldable pub acquire_run :
    Legs → StoreListItem → List SyncLog → (Option SyncError × String) × List SyncLog
acquire_run legs store rows =
    let id = legs.new_id store.slug in
    let (started, rows') = try_start id store.id store.group (some legs.owner) legs.now rows in
    elim started [
      | none ↦ ((some (duplicate (describe_blocker store rows')), id), rows')
      | some row ↦ ((none, row), rows')
    ]

-- Why a store of a full sync was skipped.
pub data Skip : Type 0 where
  refused : SyncError → Skip
  not_closed : Skip

pub record SyncStoreReport : Type 0 where
  pub slug : String
  pub outcome : Option SyncOutcome
  pub skip_reason : Option Skip

abbrev pub skipped : String → Skip → SyncStoreReport
skipped slug reason = record { slug = slug; outcome = none; skip_reason = some reason }

abbrev pub reported : String → Option SyncOutcome → SyncStoreReport
reported slug none = skipped slug not_closed
reported slug (some o) = record { slug = slug; outcome = some o; skip_reason = none }

-- The leg of a store after `acquireRun`.
unfoldable pub run_acquired :
    SyncConfig
    → Legs
    → String
    → StoreListItem
    → (Option SyncError × String) × List SyncLog
    → SyncStoreReport × List SyncLog
run_acquired config legs slug store ((some e, id), rows) = (skipped slug (refused e), rows)
run_acquired config legs slug store ((none, id), rows) =
    let (outcome, rows', metrics) =
      run_store_sync config store (legs.collection store.slug) (legs.closes store.slug) id legs.now
        rows in
    (reported slug outcome, rows')

-- The leg of a store that was found in the database, and may have changed since the schedule.
unfoldable pub run_fresh :
    SyncConfig → Legs → String → StoreListItem → List SyncLog → SyncStoreReport × List SyncLog
run_fresh config legs slug store rows =
    let acquired = acquire_run legs store rows in
    elim (unsyncable store) [
      | some e ↦ (skipped slug (refused e), rows)
      | none ↦ run_acquired config legs slug store acquired
    ]

-- `runScheduledStore`.
unfoldable pub run_scheduled_store :
    SyncConfig → Legs → StoreListItem → List SyncLog → SyncStoreReport × List SyncLog
run_scheduled_store config legs store rows = elim (legs.find store.slug) [
  | none ↦ (skipped store.slug (refused not_found), rows)
  | some fresh ↦ run_fresh config legs store.slug fresh rows
]

-- `runTrack`: the stores strictly one after another.
unfoldable pub run_track :
    SyncConfig → Legs → List StoreListItem → List SyncLog → List SyncStoreReport × List SyncLog
run_track config legs [] rows = ([], rows)
run_track config legs (store ∷ track) rows =
    let (report, rows') = run_scheduled_store config legs store rows in
    let (reports, rows'') = run_track config legs track rows' in (report ∷ reports, rows'')

-- The chunks of tracks that `runFullSync` runs, those of a chunk side by side.
unfoldable pub full_sync_chunks : SyncConfig → List StoreListItem → List (List (List StoreListItem))
full_sync_chunks config all =
    chunkify config.max_parallel_tracks
      (build_tracks (filter (λ store. store.active && owned_by_ts store) all))

-- The counts of `writeRunTotals`, of which the first is a difference.
pub record RunTotals : Type 0 where
  pub ok : ℕ
  pub failed : ℕ
  pub skipped : ℕ
  pub is_warning : Bool

abbrev pub has_failed : SyncStoreReport → Bool
has_failed r = elim r.outcome [ none ↦ false | some o ↦ not o.success ]

abbrev pub was_skipped : SyncStoreReport → Bool
was_skipped r = elim r.outcome [ none ↦ true | some o ↦ false ]

unfoldable pub run_totals : List SyncStoreReport → RunTotals
run_totals stores =
    let failed = length (filter has_failed stores) in
    let skipped = length (filter was_skipped stores) in
    record {
      ok = length stores - failed - skipped;
      failed = failed;
      skipped = skipped;
      is_warning = ltb 0 (failed + skipped);
    }
