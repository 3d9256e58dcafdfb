-- ===== src/Sync/Tracks/Chunks.antt =====
-- What the chunks of a full sync are.
use whisky_scrapper_node.Prelude.{ℕ, ◌≤◌, ◌<◌, ◌≡◌, List, length, All, flatten, slices_lem}
use whisky_scrapper_node.Sync.Tracks.{chunkify}

module _ {ℓ} {A : Type ℓ} where
  -- The chunks of a list, for a positive size, one after another are the list, and none is longer
  -- than the size.
  pub chunkify_lem :
      (size : ℕ) (items : List A)
      → 0 < size
      → (flatten (chunkify size items) ≡ items) × All (λ xs. length xs ≤ size) (chunkify size items)
  unfolding chunkify
  chunkify_lem size items h = slices_lem size items h
