-- ===== src/Sync/Start/Released.antt =====
-- The lock over a sync that is started for one store.
use whisky_scrapper_node.Prelude.{
  ◌≡◌, ◌≢◌, ◌⊎◌, ◌↔◌, refl, none, some, Bool, true, List, [], ◌∷◌, ◌++◌, filter, any, Option-cases,
  Bool-cases, inl, inr, arith,
}
use text.Mathlib.TextEquality.{eq_iff}
use whisky_scrapper_node.Sync.Tracks.{StoreListItem}
use whisky_scrapper_node.Sync.Log.{SyncLog, is_open, holds_lock, lock_of}
use whisky_scrapper_node.Sync.Collect.{SyncConfig}
use whisky_scrapper_node.Sync.Run.{Legs, unsyncable, run_store_sync}
use whisky_scrapper_node.Sync.Run.Lifecycle.{
  unused, filter-finish, acquire_run-held, acquire_run-free,
}
use whisky_scrapper_node.Sync.Start.{manual, start_acquired, start_found}

any-append :
    (p : SyncLog → Bool) (rows : List SyncLog) (row : SyncLog)
    → p row ≡ true
    → any p (rows ++ row ∷ []) ≡ true
any-append p [] row h = rw h
any-append p (r ∷ rows) row h = ground (arith, any-append p rows row h)

-- A manual sync of a store, where its row can be closed and its identifier is that of no open row.
-- It is refused exactly if the store may not be synced or its lock is held. If it is not, the lock
-- is held when the caller is answered. In both cases, the open rows at the end are those from
-- before.
pub start_found_lem :
    (config : SyncConfig) (legs : Legs) (store : StoreListItem) (rows : List SyncLog)
    → legs.closes store.slug ≡ true
    → unused (legs.new_id store.slug) rows ≡ true
    → let s = start_found config legs manual store rows in
      let lock = holds_lock (lock_of store.group store.id) in
      ((s.error ≢ none) ↔ ((unsyncable store ≢ none) ⊎ (any lock rows ≡ true)))
      × ((s.error ≢ none) ⊎ (any lock s.at_answer ≡ true))
      × (filter is_open s.at_end ≡ filter is_open rows)
unfolding start_found start_acquired run_store_sync
start_found_lem config legs store rows closes fresh = elim (Option-cases (unsyncable store)) [
  | inr (e, h) ↦ rw (h, start_found) (((λ k. inl (λ n. cc)), (λ k n. cc)), inl (λ n. cc), refl)
  | inl h ↦ elim (Bool-cases (any (holds_lock (lock_of store.group store.id)) rows)) [
    | inl held ↦
        rw (h, start_found, acquire_run-held config legs store.slug store rows held, start_acquired)
          (((λ k. inr held), (λ k n. cc)), inl (λ n. cc), refl)
    | inr free ↦
        rw
          (
            h,
            start_found,
            acquire_run-free config legs store.slug store rows free,
            start_acquired,
            run_store_sync,
            closes,
          )
          (
            ((λ k. absurd (k refl)), (λ k n. elim k [ inl bad ↦ bad refl | inr held ↦ cc ])),
            inr (
                any-append (holds_lock (lock_of store.group store.id)) rows _ (
                  ground
                    (arith, eq_iff (lock_of store.group store.id) (lock_of store.group store.id)))),
            filter-finish (legs.new_id store.slug) store.id store.group (some legs.owner) legs.now
                legs.now _ rows fresh,
          )
  ]
]
