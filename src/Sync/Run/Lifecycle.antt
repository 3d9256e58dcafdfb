-- ===== src/Sync/Run/Lifecycle.antt =====
-- Locks over the life of a run.
use text.Mathlib.Text.{◌==◌ as str_eq}
use text.Mathlib.TextEquality.{eq_iff}
use whisky_scrapper_node.Prelude.{
  ℕ, String, ◌≡◌, ◌≢◌, ◌↔◌, ◌⊎◌, refl, ap, ◌∙◌, Option, none, some, Bool, true, false, not, List,
  [], ◌∷◌, ◌++◌, map, filter, any, arith, Bool-cases, Option-cases, inl, inr,
}
use whisky_scrapper_node.Sync.Tracks.{StoreListItem}
use whisky_scrapper_node.Sync.Log.{
  SyncLog, SyncOutcome, is_open, holds_lock, lock_of, opened, try_start, finish, finished,
}
use whisky_scrapper_node.Sync.Collect.{SyncConfig, outcome_of_run, collect}
use whisky_scrapper_node.Sync.Run.{
  Legs, acquire_run, run_store_sync, run_fresh, run_acquired, run_scheduled_store, run_track,
  unsyncable, SyncError, skipped, refused, duplicate, describe_blocker,
}

-- No open row has the identifier.
abbrev pub unused : String → List SyncLog → Bool
unused id rows = not (any (λ row. str_eq row.id id) (filter is_open rows))

-- A run that is opened and closed leaves the open rows as they were.
pub filter-finish :
    (id store_id : String) (group owner : Option String) (now now' : ℕ) (outcome : SyncOutcome)
    (rows : List SyncLog)
    → unused id rows ≡ true
    → filter is_open (finish id outcome now' (rows ++ opened id store_id group owner now ∷ []))
      ≡ filter is_open rows
unfolding finish finished
filter-finish id store_id group owner now now' outcome [] h = ground (arith, eq_iff id id)
filter-finish id store_id group owner now now' outcome (row ∷ rows) h =
    ground (arith, filter-finish id store_id group owner now now' outcome rows)

module _ (config : SyncConfig) (legs : Legs) (slug : String) (store : StoreListItem)
    (rows : List SyncLog) where
  run_fresh-refused :
      (e : SyncError)
      → unsyncable store ≡ some e
      → run_fresh config legs slug store rows ≡ (skipped slug (refused e), rows)
  unfolding run_fresh
  run_fresh-refused e h = rw (h, run_fresh)

  try_start-held :
      any (holds_lock (lock_of store.group store.id)) rows ≡ true
      → try_start (legs.new_id store.slug) store.id store.group (some legs.owner) legs.now rows
        ≡ (none, rows)
  unfolding try_start
  try_start-held e = rw (e, try_start)

  pub acquire_run-held :
      any (holds_lock (lock_of store.group store.id)) rows ≡ true
      → acquire_run legs store rows
        ≡ ((some (duplicate (describe_blocker store rows)), legs.new_id store.slug), rows)
  unfolding acquire_run
  acquire_run-held held = rw (try_start-held held, acquire_run, ap (λ x. x.1) (try_start-held held))

  try_start-free :
      any (holds_lock (lock_of store.group store.id)) rows ≡ false
      → try_start (legs.new_id store.slug) store.id store.group (some legs.owner) legs.now rows ≡ (
        some (legs.new_id store.slug),
        rows
            ++ opened (legs.new_id store.slug) store.id store.group (some legs.owner) legs.now ∷ [],
      )
  unfolding try_start
  try_start-free e = rw (e, try_start)

  pub acquire_run-free :
      any (holds_lock (lock_of store.group store.id)) rows ≡ false
      → acquire_run legs store rows ≡ (
        (none, legs.new_id store.slug),
        rows
            ++ opened (legs.new_id store.slug) store.id store.group (some legs.owner) legs.now ∷ [],
      )
  unfolding acquire_run
  acquire_run-free free = rw (try_start-free free, acquire_run, ap (λ x. x.1) (try_start-free free))

  run_fresh-locked :
      unsyncable store ≡ none
      → any (holds_lock (lock_of store.group store.id)) rows ≡ true
      → run_fresh config legs slug store rows
        ≡ (skipped slug (refused (duplicate (describe_blocker store rows))), rows)
  unfolding run_fresh run_acquired
  run_fresh-locked h held = rw (h, run_fresh, acquire_run-held held, run_acquired)

  abbrev outcome : SyncOutcome
  outcome = outcome_of_run (collect config store (legs.collection store.slug))

  run_fresh-ran :
      unsyncable store ≡ none
      → any (holds_lock (lock_of store.group store.id)) rows ≡ false
      → legs.closes store.slug ≡ true
      → run_fresh config legs slug store rows ≡ (
        record { slug = slug; outcome = some outcome; skip_reason = none },
        finish (legs.new_id store.slug) outcome legs.now (
            rows
            ++ opened (legs.new_id store.slug) store.id store.group (some legs.owner) legs.now
              ∷ []),
      )
  unfolding run_fresh run_acquired run_store_sync
  run_fresh-ran h free closes =
      rw (h, run_fresh, acquire_run-free free, run_acquired, run_store_sync, closes)

  -- The leg of a store that was found, where its row can be closed and its identifier is that of no
  -- open row: its report names the store that was scheduled and has no outcome exactly if the store
  -- may not be synced or its lock is held; the open rows are those from before.
  pub run_fresh_lem :
      legs.closes store.slug ≡ true
      → unused (legs.new_id store.slug) rows ≡ true
      → let (report, rows') = run_fresh config legs slug store rows in
        (report.slug ≡ slug)
        × (filter is_open rows' ≡ filter is_open rows)
        × ((report.outcome ≡ none) ↔ (
            (unsyncable store ≢ none)
            ⊎ (any (holds_lock (lock_of store.group store.id)) rows ≡ true)))
  run_fresh_lem closes fresh = elim (Option-cases (unsyncable store)) [
    | inr (e, h) ↦ rw (run_fresh-refused e h) (refl, refl, (λ k. inl (λ n. cc), λ k. refl))
    | inl h ↦ elim (Bool-cases (any (holds_lock (lock_of store.group store.id)) rows)) [
      | inl held ↦ rw (run_fresh-locked h held) (refl, refl, (λ k. inr held, λ k. refl))
      | inr free ↦ rw (run_fresh-ran h free closes) (
        refl,
        filter-finish (legs.new_id store.slug) store.id store.group (some legs.owner) legs.now
            legs.now outcome rows fresh,
        (λ k. cc, λ k. elim k [ inl bad ↦ absurd (bad h) | inr held ↦ cc ]),
      )
    ]
  ]

run_scheduled_store_lem :
    (config : SyncConfig) (legs : Legs) (store : StoreListItem) (rows : List SyncLog)
    → ((slug : String) → legs.closes slug ≡ true)
    → ((slug : String) → unused (legs.new_id slug) rows ≡ true)
    → let (report, rows') = run_scheduled_store config legs store rows in
      (report.slug ≡ store.slug) × (filter is_open rows' ≡ filter is_open rows)
unfolding run_scheduled_store
run_scheduled_store_lem config legs store rows closes fresh =
    elim (Option-cases (legs.find store.slug)) [
      | inl h ↦ rw (h, run_scheduled_store) (refl, refl)
      | inr (found, h) ↦
          let (named, same, _) =
            run_fresh_lem config legs store.slug found rows (closes found.slug)
              (fresh found.slug) in
          rw (h, run_scheduled_store) (named, same)
    ]

-- One after another, the legs of a track, where every row can be closed and every run has an
-- identifier that no open row has: the reports are of the track's stores in their order, and the
-- open rows, and so the locks, are those from before.
pub run_track-open :
    (config : SyncConfig) (legs : Legs) (track : List StoreListItem) (rows : List SyncLog)
    → ((slug : String) → legs.closes slug ≡ true)
    → ((slug : String) → unused (legs.new_id slug) rows ≡ true)
    → let (reports, rows') = run_track config legs track rows in
      (map (λ r. r.slug) reports ≡ map (λ s. s.slug) track)
      × (filter is_open rows' ≡ filter is_open rows)
unfolding run_track run_scheduled_store
run_track-open config legs [] rows closes fresh = (refl, refl)
run_track-open config legs (store ∷ track) rows closes fresh =
    let (named, same) = run_scheduled_store_lem config legs store rows closes fresh in
    let rows' = (run_scheduled_store config legs store rows).1 in
    let (rest_named, rest_same) = run_track-open config legs track rows' closes (λ slug.
      ap (λ open_rows. not (any (λ row. str_eq row.id (legs.new_id slug)) open_rows)) same
      ∙ fresh slug) in
    (
      ap (λ n. n ∷ map (λ r. r.slug) (run_track config legs track rows').0) named
          ∙ ap (λ ns. store.slug ∷ ns) rest_named,
      rest_same ∙ same,
    )
