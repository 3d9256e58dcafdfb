-- ===== src/Sync/Collect.antt =====
-- How the collection of a store ends and what outcome its run has then
-- (domain/store/sync-orchestrator.service.ts, collect and outcomeOf).
use whisky_scrapper_node.Prelude.{
  ℕ, String, Option, none, some, Bool, true, false, if◌then◌else◌, ltb,
}
use whisky_scrapper_node.Sync.Tracks.{StoreListItem}
use whisky_scrapper_node.Sync.Log.{
  SyncOutcome, Failure, timed_out, listing_incomplete, pos, difference,
}

pub record SyncConfig : Type 0 where
  pub max_parallel_tracks : ℕ
  pub store_timeout_ms : ℕ
  pub browser_store_timeout_ms : ℕ
  pub llm_deadline_margin_ms : ℕ

pub record SiteResult : Type 0 where
  pub found : ℕ
  pub stored : ℕ
  pub added : ℕ
  pub removed : ℕ
  pub listing_complete : Bool
  pub listing_stop : String
  pub stated_items : Option ℕ

-- How the wait for a collection ends.
pub data Collected : Type 0 where
  collected : SiteResult → Collected
  rejected : Failure → Collected

-- A collection that ends by itself after `after_ms`.
pub record Collection : Type 0 where
  pub after_ms : ℕ
  pub ends : Collected

-- UNKNOWN_FAILURE, with the error of a failure.
abbrev pub failure : Failure → SyncOutcome
failure error = record {
  success = false;
  error = some error;
  added = 0;
  removed = 0;
  updated = pos 0;
  total = 0;
}

abbrev pub timeout_ms : SyncConfig → StoreListItem → ℕ
timeout_ms config store = elim store.needs_browser [
  | some true ↦ config.browser_store_timeout_ms
  | some false ↦ config.store_timeout_ms
  | none ↦ config.store_timeout_ms
]

-- `collect`: a race of the collection and the timeout.
unfoldable pub collect : SyncConfig → StoreListItem → Collection → Collected
collect config store c =
    let budget = timeout_ms config store in
    if ltb c.after_ms budget then c.ends else rejected (timed_out budget)

unfoldable pub outcome_of : SiteResult → SyncOutcome
outcome_of r = record {
  success = r.listing_complete;
  error =
      if r.listing_complete
      then none
      else some (listing_incomplete r.listing_stop r.found r.stated_items);
  added = r.added;
  removed = r.removed;
  updated = difference r.stored r.added;
  total = r.found;
}

unfoldable pub outcome_of_run : Collected → SyncOutcome
outcome_of_run (collected r) = outcome_of r
outcome_of_run (rejected error) = failure error
