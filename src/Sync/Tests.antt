-- ===== src/Sync/Tests.antt =====
-- The sync orchestrator on concrete inputs.
use whisky_scrapper_node.Prelude.{
  of_key, single, ◌+◌, ◌≤◌, ◌<◌, String, ◌≡◌, ◌≢◌, ◌⊎◌, ◌↔◌, refl, Option, none, some, true, false,
  List, [], ◌∷◌, map, length, filter, any, All, arith,
}
use whisky_scrapper_node.Sync.Tracks.{StoreListItem, track_key, build_tracks}
use whisky_scrapper_node.Sync.Tracks.Split.{build_tracks_lem}
use whisky_scrapper_node.Sync.Log.{
  SyncLog, is_open, holds_lock, opened, LogSteps, starts, finishes, stay, step, did_not_complete,
  try_start, finish,
}
use whisky_scrapper_node.Sync.Log.Exclusive.{holders, LogSteps-holders}
use whisky_scrapper_node.Sync.Collect.{SyncConfig, SiteResult, collected, failure}
use whisky_scrapper_node.Sync.Run.{
  Legs, SyncStoreReport, run_fresh, run_track, unsyncable, skipped, not_closed,
}
use whisky_scrapper_node.Sync.Boot.{on_module_init}
use whisky_scrapper_node.Sync.Boot.Spared.{liveness, spared, on_module_init-open}
use whisky_scrapper_node.Sync.Start.{start_found, manual}
use whisky_scrapper_node.Sync.Start.Released.{start_found_lem}
use whisky_scrapper_node.Sync.Run.Lifecycle.{run_fresh_lem, run_track-open}

abbrev store_of : String → Option String → StoreListItem
store_of name group = record {
  id = name;
  slug = name;
  group = group;
  active = true;
  tier = some 1;
  engine = some "ts";
  needs_browser = none;
}

-- Two stores of a group and one between them that has none.
abbrev shops : List StoreListItem
shops = store_of "a" (some "g") ∷ store_of "b" none ∷ store_of "c" (some "g") ∷ []

build_tracks_lem_example :
    (filter (any (of_key track_key "g")) (build_tracks shops)
      ≡ single (filter (of_key track_key "g") shops))
    × All (λ track. 0 < length track) (build_tracks shops)
build_tracks_lem_example = build_tracks_lem shops "g"

-- Two stores of a group are started, and the first is closed as failed.
abbrev rows_1 : List SyncLog
rows_1 = (try_start "1" "a" (some "g") none 10 []).1

abbrev rows_2 : List SyncLog
rows_2 = (try_start "2" "c" (some "g") none 20 rows_1).1

abbrev rows_3 : List SyncLog
rows_3 = finish "1" (failure did_not_complete) 30 rows_2

abbrev history : LogSteps [] rows_3
history =
    step (step (step stay (starts "1" "a" (some "g") none 10)) (starts "2" "c" (some "g") none 20))
      (finishes "1" (failure did_not_complete) 30)

LogSteps-holders_example : holders "g" rows_3 ≤ 1
LogSteps-holders_example = LogSteps-holders "g" (omega arith) history

abbrev config : SyncConfig
config = record {
  max_parallel_tracks = 2;
  store_timeout_ms = 1000;
  browser_store_timeout_ms = 2000;
  llm_deadline_margin_ms = 100;
}

abbrev result : SiteResult
result = record {
  found = 12;
  stored = 10;
  added = 3;
  removed = 1;
  listing_complete = true;
  listing_stop = "end";
  stated_items = none;
}

-- Every store is found without a group, and collected in time.
abbrev legs : Legs
legs = record {
  find = λ slug. some (store_of slug none);
  collection = λ slug. record { after_ms = 500; ends = collected result };
  closes = λ slug. true;
  new_id = λ slug. "new";
  owner = "me";
  now = 7;
}

-- A run of the store "a" is open already.
abbrev held : List SyncLog
held = opened "old" "a" none none 5 ∷ []

run_fresh_lem_example :
    let (report, rows') = run_fresh config legs "b" (store_of "b" none) held in
    (report.slug ≡ "b")
    × (filter is_open rows' ≡ filter is_open held)
    × ((report.outcome ≡ none)
        ↔ ((unsyncable (store_of "b" none) ≢ none) ⊎ (any (holds_lock "b") held ≡ true)))
run_fresh_lem_example = run_fresh_lem config legs "b" (store_of "b" none) held refl refl

run_track-open_example :
    let (reports, rows') = run_track config legs shops held in
    (map (λ r. r.slug) reports ≡ map (λ s. s.slug) shops)
    × (filter is_open rows' ≡ filter is_open held)
run_track-open_example = run_track-open config legs shops held (λ slug. refl) (λ slug. refl)

abbrev reports : List SyncStoreReport
reports =
    record { slug = "a"; outcome = some (failure did_not_complete); skip_reason = none }
    ∷ skipped "b" not_closed
    ∷ []

start_found_lem_example :
    let s = start_found config legs manual (store_of "b" (some "g")) held in
    let lock = holds_lock "g" in
    ((s.error ≢ none) ↔ ((unsyncable (store_of "b" (some "g")) ≢ none) ⊎ (any lock held ≡ true)))
    × ((s.error ≢ none) ⊎ (any lock s.at_answer ≡ true))
    × (filter is_open s.at_end ≡ filter is_open held)
start_found_lem_example = start_found_lem config legs (store_of "b" (some "g")) held refl refl

-- A run of an instance that is gone and one of this instance.
abbrev left_over : List SyncLog
left_over = opened "1" "a" none (some "gone") 5 ∷ opened "2" "b" none (some "me") 5 ∷ []

on_module_init-open_example :
    let (closed, rows') = on_module_init config (liveness true (λ owner. false)) "me" 9 left_over in
    (filter is_open rows' ≡ filter (spared config true (λ owner. false) "me" 9) left_over)
    × (closed + length (filter is_open rows') ≡ length (filter is_open left_over))
on_module_init-open_example = on_module_init-open config true (λ owner. false) "me" 9 left_over
