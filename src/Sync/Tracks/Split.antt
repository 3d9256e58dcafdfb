-- ===== src/Sync/Tracks/Split.antt =====
-- What the tracks of a full sync are.
use whisky_scrapper_node.Prelude.{
  ◌<◌, String, ◌≡◌, List, length, filter, any, All, of_key, single, group_by_lem,
}
use whisky_scrapper_node.Sync.Tracks.{StoreListItem, track_key, build_tracks}

-- For every key, the tracks that have a store of the key are none where there is no such store,
-- and else one, which is the stores of that key in their order; and no track is empty.
pub build_tracks_lem :
    (stores : List StoreListItem) (key : String)
    → (filter (any (of_key track_key key)) (build_tracks stores)
        ≡ single (filter (of_key track_key key) stores))
      × All (λ track. 0 < length track) (build_tracks stores)
unfolding build_tracks
build_tracks_lem stores key = group_by_lem track_key stores key
