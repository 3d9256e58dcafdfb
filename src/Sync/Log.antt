-- ===== src/Sync/Log.antt =====
-- The table of sync runs (core/sync-log/sync-log.repository.ts): a run is open while its `success`
-- is null, and a partial unique index on `group ?? storeId` over the open rows is the lock. An
-- identifier is made by the caller of the model; times are in milliseconds.
pub mod Exclusive
use text.Mathlib.Text.{◌==◌ as str_eq}
use whisky_scrapper_node.Prelude.{
  ℕ, ◌+◌, ◌-◌, ◌<◌, String, Option, none, some, Bool, true, false, not, ◌&&◌, ◌||◌, List, [], ◌∷◌,
  ◌++◌, map, if◌then◌else◌, any, filter, length, ltb,
}

-- A whole number that may be below zero.
pub data ℤ : Type 0 where
  pos negsuc : ℕ → ℤ

-- `a - b`.
unfoldable pub difference : ℕ → ℕ → ℤ
difference a b = if ltb a b then negsuc (b - a - 1) else pos (a - b)

-- The error text of an outcome, by what it is made of.
pub data Failure : Type 0 where
  did_not_complete : Failure
  threw : String → Failure
  timed_out : ℕ → Failure
  listing_incomplete : String → ℕ → Option ℕ → Failure
  owner_gone too_old : Failure

pub record SyncOutcome : Type 0 where
  pub success : Bool
  pub error : Option Failure
  pub added : ℕ
  pub removed : ℕ
  pub updated : ℤ
  pub total : ℕ

pub record SyncLog : Type 0 where
  pub id : String
  pub store_id : String
  pub group : Option String
  pub owner_id : Option String
  pub updated_at : ℕ
  pub success : Option Bool
  pub error : Option Failure
  pub added : ℕ
  pub removed : ℕ
  pub updated : ℤ
  pub total : ℕ

-- `success IS NULL`.
abbrev pub is_open : SyncLog → Bool
is_open row = elim row.success [ none ↦ true | some b ↦ false ]

abbrev pub lock_of : Option String → String → String
lock_of none store_id = store_id
lock_of (some group) store_id = group

-- An open row under a key of the unique index.
abbrev pub holds_lock : String → SyncLog → Bool
holds_lock key row = is_open row && str_eq (lock_of row.group row.store_id) key

-- The row of a run that starts.
abbrev pub opened : String → String → Option String → Option String → ℕ → SyncLog
opened id store_id group owner now = record {
  id = id;
  store_id = store_id;
  group = group;
  owner_id = owner;
  updated_at = now;
  success = none;
  error = none;
  added = 0;
  removed = 0;
  updated = pos 0;
  total = 0;
}

-- `none` where the insert violates the unique index.
unfoldable pub try_start :
    String
    → String
    → Option String
    → Option String
    → ℕ
    → List SyncLog
    → Option String × List SyncLog
try_start id store_id group owner now rows =
    if any (holds_lock (lock_of group store_id)) rows
    then (none, rows)
    else (some id, rows ++ opened id store_id group owner now ∷ [])

unfoldable pub touched : String → ℕ → ℕ → SyncLog → SyncLog
touched id total now row =
    if str_eq row.id id then record row { updated_at = now; total = total } else row

unfoldable pub touch : String → ℕ → ℕ → List SyncLog → List SyncLog
touch id total now rows = map (touched id total now) rows

unfoldable pub finished : String → SyncOutcome → ℕ → SyncLog → SyncLog
finished id outcome now row =
    if str_eq row.id id
    then record row {
      updated_at = now;
      success = some outcome.success;
      error = outcome.error;
      added = outcome.added;
      removed = outcome.removed;
      updated = outcome.updated;
      total = outcome.total;
    }
    else row

unfoldable pub finish : String → SyncOutcome → ℕ → List SyncLog → List SyncLog
finish id outcome now rows = map (finished id outcome now) rows

-- `$1 IS NOT NULL AND ("ownerId" IS NULL OR NOT ("ownerId" = ANY($1)))`.
unfoldable pub owner_is_gone : Option (List String) → SyncLog → Bool
owner_is_gone none row = false
owner_is_gone (some alive) row = elim row.owner_id [
  | none ↦ true
  | some owner ↦ not (any (str_eq owner) alive)
]

unfoldable pub is_orphaned : Option (List String) → ℕ → ℕ → SyncLog → Bool
is_orphaned alive max_age now row =
    is_open row && (owner_is_gone alive row || ltb (row.updated_at + max_age) now)

unfoldable pub swept : Option (List String) → ℕ → ℕ → SyncLog → SyncLog
swept alive max_age now row =
    if is_orphaned alive max_age now row
    then record row {
      success = some false;
      error = some (if owner_is_gone alive row then owner_gone else too_old);
      updated_at = now;
    }
    else row

-- The rows that were closed, counted, and the table after it.
unfoldable pub sweep_orphaned : Option (List String) → ℕ → ℕ → List SyncLog → ℕ × List SyncLog
sweep_orphaned alive max_age now rows =
    (length (filter (is_orphaned alive max_age now) rows), map (swept alive max_age now) rows)

-- One statement of any instance against the table.
pub data LogStep : List SyncLog → List SyncLog → Type 0 where
  starts :
      {rows : List SyncLog} (id store_id : String) (group owner : Option String) (now : ℕ)
      → LogStep rows (try_start id store_id group owner now rows).1
  touches :
      {rows : List SyncLog} (id : String) (total now : ℕ) → LogStep rows (touch id total now rows)
  finishes :
      {rows : List SyncLog} (id : String) (outcome : SyncOutcome) (now : ℕ)
      → LogStep rows (finish id outcome now rows)
  sweeps :
      {rows : List SyncLog} (alive : Option (List String)) (max_age now : ℕ)
      → LogStep rows (sweep_orphaned alive max_age now rows).1

pub data LogSteps : List SyncLog → List SyncLog → Type 0 where
  stay : {rows : List SyncLog} → LogSteps rows rows
  step : {a b c : List SyncLog} → LogSteps a b → LogStep b c → LogSteps a c
