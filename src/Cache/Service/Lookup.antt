-- ===== src/Cache/Service/Lookup.antt =====
-- Lookups in the cache.
use text.Mathlib.Text.{◌==◌ as str_eq}
use text.Mathlib.TextLemmas.{append_cancel_left, append_cancel_right}
use whisky_scrapper_node.Prelude.{
  ℕ, String, List, ◌+◌, ◌≡◌, ◌≢◌, Option, none, some, true, Bool-cases, inl, inr, arith,
}
use whisky_scrapper_node.Hashes.{answered}
use whisky_scrapper_node.Cache.Codec.{Runtime, decode}
use whisky_scrapper_node.Cache.Server.{CacheServer, number}
use whisky_scrapper_node.Cache.Service.{
  CacheSettings, CacheEntryRef, Surroundings, World, Pending, key_root, ◌++ₛ◌, generation_key,
  entry_key, command, query, bump, read_generation, usable_generation, read, look, get_or_compute,
  hit, miss, remember,
}

module _ (server : CacheServer) (around : Surroundings) (config : CacheSettings) where
  open server use {get, get_buffer, set_ex, get_buffer-set_ex, get-set_ex_ne}
  open around use {net}

  command-answered :
      {A : Type 0} (send : server.State → A × server.State) (w : World server around config)
      → net w.sent ≡ answered
      → command server around config send w ≡ (
        some (send w.server_state).0,
        record w { server_state = (send w.server_state).1; sent = w.sent + 1 },
      )
  unfolding command
  command-answered send w h = rw (h, command)

  command-lost :
      {A : Type 0} (send : server.State → A × server.State) (w : World server around config)
      → net w.sent ≢ answered
      → ((command server around config send w).0 ≡ none)
        × ((command server around config send w).1.pending ≡ w.pending)
        × ((command server around config send w).1.bypasses ≡ w.bypasses)
  unfolding command
  command-lost send w h = ground arith

  -- With the cache enabled, while a bump is outstanding and sending it again is not answered, a
  -- lookup answers what its loader does, leaves the bump outstanding and is counted as a bypass.
  pub get_or_compute-outstanding :
      {V : Type 0} (r : Runtime V) (ref : CacheEntryRef) (generation : String) (loaded : Option V)
      (w : World server around config) (p : Pending)
      → w.pending ≡ some p
      → config.enabled ≡ true
      → net w.sent ≢ answered
      → let (answer, w') = get_or_compute server around config r ref generation loaded w in
        (answer ≡ loaded) × (w'.pending ≡ some p) × (w'.bypasses ≡ w.bypasses + 1)
  unfolding get_or_compute look usable_generation bump command
  get_or_compute-outstanding r ref generation loaded w p h on lost = ground arith

  based : String → String → String
  based scope version = key_root ++ₛ ":" ++ₛ scope ++ₛ ":g" ++ₛ version

  based_injective : (scope a b : String) → based scope a ≡ based scope b → a ≡ b
  unfolding based
  based_injective scope a b e = append_cancel_left ":g" a b (
      append_cancel_left scope _ _ (append_cancel_left ":" _ _ (append_cancel_left key_root _ _ e)))

  -- Entries of two generations are stored under two keys.
  pub entry_key-ne :
      (ref : CacheEntryRef) (m n : ℕ)
      → m ≢ n
      → entry_key server around config ref m ≢ entry_key server around config ref n
  unfolding entry_key based
  entry_key-ne ref m n h e = h (
      around.decimal_injective m n (
        based_injective ref.scope _ _ (elim (Bool-cases (str_eq ref.suffix "")) [
          | inl b ↦ (rw b at e)
          | inr b ↦ append_cancel_right _ _ (":" ++ₛ ref.suffix) (rw b at e)
        ])))

  module _ {V : Type 0} (r : Runtime V) (ref : CacheEntryRef) (generation : String) where
    -- A lookup of an entry that is there is a hit.
    pub look-stored :
        (w : World server around config) (v : ℕ) (bytes : List ℕ) (value : V)
        → ((n : ℕ) → net n ≡ answered)
        → config.enabled ≡ true
        → w.pending ≡ none
        → get w.server_state (generation_key generation) ≡ some (number v)
        → get_buffer w.server_state (entry_key server around config ref v) ≡ some bytes
        → decode r bytes ≡ some value
        → let (looked, w') = look server around config r ref generation w in
          (looked ≡ hit value)
          × (w'.hits ≡ w.hits + 1)
          × (w'.pending ≡ none)
          × (w'.server_state ≡ w.server_state)
    unfolding look usable_generation read_generation read query command remember
    look-stored w v bytes value on enabled idle counter stored decoded =
        ground (arith, on w.sent, on (w.sent + 1))

    -- A lookup of an entry that is not there is a miss.
    pub look-absent :
        (w : World server around config) (v : ℕ)
        → ((n : ℕ) → net n ≡ answered)
        → config.enabled ≡ true
        → w.pending ≡ none
        → get w.server_state (generation_key generation) ≡ some (number v)
        → get_buffer w.server_state (entry_key server around config ref v) ≡ none
        → let (looked, w') = look server around config r ref generation w in
          (looked ≡ miss (entry_key server around config ref v))
          × (w'.pending ≡ none)
          × (w'.server_state ≡ w.server_state)
    unfolding look usable_generation read_generation read query command remember
    look-absent w v on enabled idle counter absent = ground (arith, on w.sent, on (w.sent + 1))
