-- ===== src/Sync/Log/Exclusive.antt =====
-- The lock of the sync runs.
use text.Mathlib.TextEquality.{eq_iff}
use whisky_scrapper_node.Prelude.{
  ℕ, ◌≤◌, String, ◌≡◌, refl, Option, true, false, List, [], ◌∷◌, map, length, filter, any, arith,
  filter-append, length-append, Bool-cases, inl, inr,
}
use whisky_scrapper_node.Sync.Log.{
  SyncLog, SyncOutcome, holds_lock, lock_of, try_start, opened, touch, touched, finish, finished,
  sweep_orphaned, swept, LogSteps, starts, touches, finishes, sweeps, stay, step,
}

-- How many runs are open under a key.
abbrev pub holders : String → List SyncLog → ℕ
holders key rows = length (filter (holds_lock key) rows)

-- A change of rows that opens none and moves none under another key.
holders-map :
    (key : String) (f : SyncLog → SyncLog) (rows : List SyncLog)
    → ((row : SyncLog) → holds_lock key (f row) ≡ true → holds_lock key row ≡ true)
    → holders key (map f rows) ≤ holders key rows
holders-map key f [] h = omega arith
holders-map key f (row ∷ rows) h = ground (arith, h row, holders-map key f rows h)

holders-none :
    (key : String) (rows : List SyncLog) → any (holds_lock key) rows ≡ false → holders key rows ≡ 0
holders-none key [] h = refl
holders-none key (row ∷ rows) h = ground (arith, holders-none key rows)

touched-holds_lock :
    (key id : String) (total now : ℕ) (row : SyncLog)
    → holds_lock key (touched id total now row) ≡ true
    → holds_lock key row ≡ true
unfolding touched
touched-holds_lock key id total now row h = ground arith

finished-holds_lock :
    (key id : String) (outcome : SyncOutcome) (now : ℕ) (row : SyncLog)
    → holds_lock key (finished id outcome now row) ≡ true
    → holds_lock key row ≡ true
unfolding finished
finished-holds_lock key id outcome now row h = ground arith

swept-holds_lock :
    (key : String) (alive : Option (List String)) (max_age now : ℕ) (row : SyncLog)
    → holds_lock key (swept alive max_age now row) ≡ true
    → holds_lock key row ≡ true
unfolding swept
swept-holds_lock key alive max_age now row h = ground arith

touch-holders :
    (key id : String) (total now : ℕ) (rows : List SyncLog)
    → holders key rows ≤ 1
    → holders key (touch id total now rows) ≤ 1
unfolding touch
touch-holders key id total now rows h =
    omega
      (arith, h, holders-map key (touched id total now) rows (touched-holds_lock key id total now))

finish-holders :
    (key id : String) (outcome : SyncOutcome) (now : ℕ) (rows : List SyncLog)
    → holders key rows ≤ 1
    → holders key (finish id outcome now rows) ≤ 1
unfolding finish
finish-holders key id outcome now rows h = omega (
  arith,
  h,
  holders-map key (finished id outcome now) rows (finished-holds_lock key id outcome now),
)

sweep_orphaned-holders :
    (key : String) (alive : Option (List String)) (max_age now : ℕ) (rows : List SyncLog)
    → holders key rows ≤ 1
    → holders key (sweep_orphaned alive max_age now rows).1 ≤ 1
unfolding sweep_orphaned
sweep_orphaned-holders key alive max_age now rows h = omega (
  arith,
  h,
  holders-map key (swept alive max_age now) rows (swept-holds_lock key alive max_age now),
)

try_start-holders :
    (key id store_id : String) (group owner : Option String) (now : ℕ) (rows : List SyncLog)
    → holders key rows ≤ 1
    → holders key (try_start id store_id group owner now rows).1 ≤ 1
unfolding try_start
try_start-holders key id store_id group owner now rows h =
    elim (Bool-cases (any (holds_lock (lock_of group store_id)) rows)) [
      | inl e ↦ rw e h
      | inr e ↦
          rw (e, filter-append (holds_lock key) rows (opened id store_id group owner now ∷ []))
            (ground (
              arith,
              length-append (filter (holds_lock key) rows)
                  (opened id store_id group owner now ∷ []),
              length-append (filter (holds_lock key) rows) [],
              holders-none (lock_of group store_id) rows e,
              eq_iff (lock_of group store_id) key,
              h,
            ))
    ]

-- Whatever instances start, touch, finish and sweep, in any order: if at most one run is open
-- under every key at first, it stays so. Stores of one group share a key.
pub LogSteps-holders :
    {before after : List SyncLog} (key : String)
    → holders key before ≤ 1
    → LogSteps before after
    → holders key after ≤ 1
LogSteps-holders key h stay = h
LogSteps-holders key h (step before (starts {rows = rows} id store_id group owner now)) =
    try_start-holders key id store_id group owner now rows (LogSteps-holders key h before)
LogSteps-holders key h (step before (touches {rows = rows} id total now)) =
    touch-holders key id total now rows (LogSteps-holders key h before)
LogSteps-holders key h (step before (finishes {rows = rows} id outcome now)) =
    finish-holders key id outcome now rows (LogSteps-holders key h before)
LogSteps-holders key h (step before (sweeps {rows = rows} alive max_age now)) =
    sweep_orphaned-holders key alive max_age now rows (LogSteps-holders key h before)
