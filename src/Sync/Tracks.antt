-- ===== src/Sync/Tracks.antt =====
-- How a full sync splits its stores (domain/store/sync-orchestrator.service.ts, buildTracks, and
-- utils/array.utils.ts, chunkify).
pub mod Split
pub mod Chunks
use text.Mathlib.Text.{◌==◌ as str_eq}
use whisky_scrapper_node.Prelude.{
  group_by, slices, ℕ, suc, ◌+◌, ◌-◌, ◌*◌, ◌/◌, String, Option, none, some, Bool, List, [], ◌∷◌,
  ◌++◌, map, if◌then◌else◌, take, drop, length, filter, zero,
}

-- What the orchestrator reads of a store.
pub record StoreListItem : Type 0 where
  pub id : String
  pub slug : String
  pub group : Option String
  pub active : Bool
  pub tier : Option ℕ
  pub engine : Option String
  pub needs_browser : Option Bool

-- `store.group ?? store.id`.
unfoldable pub track_key : StoreListItem → String
track_key s = elim s.group [ none ↦ s.id | some g ↦ g ]

-- The `forEach` over a `Map` of tracks.
unfoldable pub build_tracks : List StoreListItem → List (List StoreListItem)
build_tracks stores = map (λ e. e.1) (group_by track_key stores)

-- `ArrayUtils.chunkify`, for a positive size.
unfoldable pub chunkify {ℓ} : {A : Type ℓ} → ℕ → List A → List (List A)
chunkify size items = slices ((length items + size - 1) / size) 0 size items
