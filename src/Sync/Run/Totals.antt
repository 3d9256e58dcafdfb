-- ===== src/Sync/Run/Totals.antt =====
-- The totals of a full sync.
use whisky_scrapper_node.Prelude.{
  ◌+◌, ◌≡◌, ◌↔◌, refl, none, some, Bool, true, false, List, [], ◌∷◌, length, filter, all, arith,
}
use whisky_scrapper_node.Sync.Run.{SyncStoreReport, run_totals, has_failed, was_skipped}

-- A leg that ended with success.
abbrev pub went_well : SyncStoreReport → Bool
went_well r = elim r.outcome [ none ↦ false | some o ↦ o.success ]

counted :
    (stores : List SyncStoreReport)
    → length stores
      ≡ length (filter went_well stores)
        + length (filter has_failed stores)
        + length (filter was_skipped stores)
counted [] = refl
counted (r ∷ stores) = ground (arith, counted stores)

all_well :
    (stores : List SyncStoreReport)
    → (all went_well stores ≡ true)
      ↔ (length (filter has_failed stores) + length (filter was_skipped stores) ≡ 0)
all_well [] = ground arith
all_well (r ∷ stores) = ground (arith, all_well stores)

-- The count of the stores that are well, which the code takes as what is left of the others, is
-- that of the runs that succeeded; and the line is no warning exactly when every run did.
pub run_totals_lem :
    (stores : List SyncStoreReport)
    → ((run_totals stores).ok ≡ length (filter went_well stores))
      × (((run_totals stores).is_warning ≡ false) ↔ (all went_well stores ≡ true))
unfolding run_totals
run_totals_lem stores = (omega (arith, counted stores), ground (arith, all_well stores))
