-- ===== src/Sync/Start.antt =====
-- A sync that is started for one store (domain/store/sync-orchestrator.service.ts, startStoreSync).
-- The caller of a manual sync is answered while the run goes on, that of a scheduled one after it.
pub mod Released
use whisky_scrapper_node.Prelude.{
  String, Option, none, some, Bool, true, false, List, if◌then◌else◌,
}
use whisky_scrapper_node.Sync.Tracks.{StoreListItem}
use whisky_scrapper_node.Sync.Log.{SyncLog}
use whisky_scrapper_node.Sync.Collect.{SyncConfig}
use whisky_scrapper_node.Sync.Run.{
  Legs, SyncError, not_found, unsyncable, acquire_run, run_store_sync,
}

pub data SyncTrigger : Type 0 where
  manual cron : SyncTrigger

-- The error, if any; the table when the caller is answered and when the run has ended; and whether
-- the digest was dispatched after it.
pub record Started : Type 0 where
  pub error : Option SyncError
  pub at_answer : List SyncLog
  pub at_end : List SyncLog
  pub digest : Bool

abbrev pub failed_with : SyncError → List SyncLog → Started
failed_with e rows = record { error = some e; at_answer = rows; at_end = rows; digest = false }

abbrev pub is_manual : SyncTrigger → Bool
is_manual manual = true
is_manual cron = false

-- After `acquireRun`.
unfoldable pub start_acquired :
    SyncConfig
    → Legs
    → SyncTrigger
    → StoreListItem
    → (Option SyncError × String) × List SyncLog
    → Started
start_acquired config legs trigger store ((some e, id), rows) = failed_with e rows
start_acquired config legs trigger store ((none, id), rows) =
    let (outcome, rows', metrics) =
      run_store_sync config store (legs.collection store.slug) (legs.closes store.slug) id legs.now
        rows in
    record {
      error = none;
      at_answer = if is_manual trigger then rows else rows';
      at_end = rows';
      digest = is_manual trigger;
    }

unfoldable pub start_found :
    SyncConfig → Legs → SyncTrigger → StoreListItem → List SyncLog → Started
start_found config legs trigger store rows =
    let acquired = acquire_run legs store rows in
    elim (unsyncable store) [
      | some e ↦ failed_with e rows
      | none ↦ start_acquired config legs trigger store acquired
    ]

unfoldable pub start_store_sync : SyncConfig → Legs → SyncTrigger → String → List SyncLog → Started
start_store_sync config legs trigger slug rows = elim (legs.find slug) [
  | none ↦ failed_with not_found rows
  | some store ↦ start_found config legs trigger store rows
]
