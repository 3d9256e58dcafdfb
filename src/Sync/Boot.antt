-- ===== src/Sync/Boot.antt =====
-- The sweep of orphaned runs at boot (domain/store/sync-orchestrator.service.ts, onModuleInit,
-- aliveOwners, orphanAgeMs). Which of the owners are alive is what the liveness store answers: an
-- argument, `none` where it does not answer.
pub mod Spared
use text.Mathlib.Text.{◌==◌ as str_eq}
use whisky_scrapper_node.Prelude.{
  ℕ, ◌+◌, max, String, Option, none, some, Bool, List, [], ◌∷◌, ◌++◌, any, filter, if◌then◌else◌,
  true, false,
}
use whisky_scrapper_node.Sync.Log.{SyncLog, is_open, sweep_orphaned}
use whisky_scrapper_node.Sync.Collect.{SyncConfig}

-- SYNC_ORPHAN_AGE_MARGIN_MS
abbrev pub orphan_age_margin_ms : ℕ
orphan_age_margin_ms = 300000

unfoldable pub orphan_age_ms : SyncConfig → ℕ
orphan_age_ms config =
    max config.store_timeout_ms config.browser_store_timeout_ms + orphan_age_margin_ms

-- `SELECT DISTINCT "ownerId"` of the open rows that name one.
unfoldable pub open_owners : List SyncLog → List String
open_owners [] = []
open_owners (row ∷ rows) =
    let rest = open_owners rows in
    elim row.owner_id [
      | none ↦ rest
      | some owner ↦
          if is_open row then (if any (str_eq owner) rest then rest else owner ∷ rest) else rest
    ]

-- The liveness store is asked about a list of owners.
unfoldable pub alive_owners :
    (List String → Option (List String)) → String → List SyncLog → Option (List String)
alive_owners alive_among me rows = elim (alive_among (open_owners rows)) [
  | none ↦ none
  | some alive ↦ some (alive ++ me ∷ [])
]

unfoldable pub on_module_init :
    SyncConfig → (List String → Option (List String)) → String → ℕ → List SyncLog → ℕ × List SyncLog
on_module_init config alive_among me now rows =
    sweep_orphaned (alive_owners alive_among me rows) (orphan_age_ms config) now rows
