-- ===== src/Cache/Service/Stale.antt =====
-- A lookup that overlaps a write to the catalogue, and the lookups after it.
use whisky_scrapper_node.Prelude.{
  ℕ, String, ◌+◌, ◌≤◌, ◌≡◌, ◌≢◌, refl, ap, sym, ◌∙◌, Option, none, some, true, length, ◌/◌, arith,
}
use whisky_scrapper_node.Hashes.{answered}
use whisky_scrapper_node.Cache.Codec.{Runtime, encode, decode-encode}
use whisky_scrapper_node.Cache.Server.{CacheServer, number}
use whisky_scrapper_node.Cache.Service.{
  CacheSettings, CacheEntryRef, Surroundings, World, generation_key, entry_key, command, tell, bump,
  write, look, get_or_compute, hit, miss, count_miss,
}
use whisky_scrapper_node.Cache.Service.Lookup.{look-stored, look-absent, entry_key-ne}

module _ (server : CacheServer) (around : Surroundings) (config : CacheSettings) where
  open server use {get, get_buffer, set_ex, set_nx, incr}
  open around use {net}

  -- A bump that is answered moves the counter on and leaves the entries alone.
  bump-answered :
      (generation reason : String) (w : World server around config) (v : ℕ)
      → net w.sent ≡ answered
      → config.enabled ≡ true
      → get w.server_state (generation_key generation) ≡ some (number v)
      → let w' = bump server around config generation reason w in
        (get w'.server_state (generation_key generation) ≡ some (number (v + 1)))
        × (w'.pending ≡ none)
        × (w'.generation ≡ some (v + 1))
        × ((key : String)
            → generation_key generation ≢ key
            → get_buffer w'.server_state key ≡ get_buffer w.server_state key)
  unfolding bump command
  bump-answered generation reason w v on enabled counter =
      let gk = generation_key generation in
      let seeded =
        server.get-set_nx_present w.server_state gk (around.clock w.sent / 1000) _ counter in
      let (replied, moved) = server.incr-number _ gk v seeded in
      (
        ground (arith, moved),
        ground arith,
        ground (arith, replied),
        λ key apart. ground (
          arith,
          server.get_buffer-incr_ne (set_nx w.server_state gk (around.clock w.sent / 1000)) gk key
              apart,
          server.get_buffer-set_nx_ne w.server_state gk key (around.clock w.sent / 1000) apart,
        ),
      )

  module _ {V : Type 0} (r : Runtime V) where
    -- A write leaves other keys, and the counters, alone.
    write-others :
        (key : String) (value : V) (w : World server around config)
        → net w.sent ≡ answered
        → let w' = write server around config r key value w in
          (w'.pending ≡ w.pending)
          × ((key' : String) → key ≢ key' → get w'.server_state key' ≡ get w.server_state key')
          × ((key' : String)
              → key ≢ key'
              → get_buffer w'.server_state key' ≡ get_buffer w.server_state key')
    unfolding write tell command
    write-others key value w on = (
      ground arith,
      λ key' apart. ground (
        arith,
        server.get-set_ex_ne w.server_state key key' (encode r value) config.ttl_sec apart,
      ),
      λ key' apart. ground (
        arith,
        server.get_buffer-set_ex_ne w.server_state key key' (encode r value) config.ttl_sec apart,
      ),
    )

    -- A write that fits is there to be read.
    write-fits :
        (key : String) (value : V) (w : World server around config)
        → net w.sent ≡ answered
        → length (encode r value) ≤ config.max_entry_bytes
        → get_buffer (write server around config r key value w).server_state key
          ≡ some (encode r value)
    unfolding write tell command
    write-fits key value w on h =
        ground (arith, server.get_buffer-set_ex w.server_state key (encode r value) config.ttl_sec)

    module _ (ref : CacheEntryRef) (generation : String) where
      get_or_compute-miss :
          (w : World server around config) (key : String) (value : V)
          → (look server around config r ref generation w).0 ≡ miss key
          → get_or_compute server around config r ref generation (some value) w ≡ (
            some value,
            write server around config r key value
                (count_miss server around config (look server around config r ref generation w).1),
          )
      unfolding get_or_compute
      get_or_compute-miss w key value h = rw (h, get_or_compute)

      get_or_compute-hit :
          (w : World server around config) (value : V) (loaded : Option V)
          → (look server around config r ref generation w).0 ≡ hit value
          → get_or_compute server around config r ref generation loaded w
            ≡ (some value, (look server around config r ref generation w).1)
      unfolding get_or_compute
      get_or_compute-hit w value loaded h = rw (h, get_or_compute)

      -- With the cache enabled, a server that answers, no bump outstanding and a counter that is a
      -- number under a key of its own: a lookup of what is not stored answers what its loader
      -- does, and if that fits the cap, the lookup right after it is a hit on the same value,
      -- whatever its own loader would answer.
      pub get_or_compute-again :
          (w : World server around config) (v : ℕ) (value : V) (other : Option V)
          → ((n : ℕ) → net n ≡ answered)
          → config.enabled ≡ true
          → w.pending ≡ none
          → get w.server_state (generation_key generation) ≡ some (number v)
          → get_buffer w.server_state (entry_key server around config ref v) ≡ none
          → generation_key generation ≢ entry_key server around config ref v
          → length (encode r value) ≤ config.max_entry_bytes
          → let (first, w') = get_or_compute server around config r ref generation (some value) w in
            let (second, w'') = get_or_compute server around config r ref generation other w' in
            (first ≡ some value) × (second ≡ some value) × (w''.hits ≡ w'.hits + 1)
      get_or_compute-again w v value other on enabled idle counter absent apart fits =
          let key = entry_key server around config ref v in
          let (missed, quiet, same) =
            look-absent server around config r ref generation w v on enabled idle counter absent in
          let w1 = (look server around config r ref generation w).1 in
          let w2 = write server around config r key value (count_miss server around config w1) in
          let (p, g, b) = write-others key value (count_miss server around config w1) (on _) in
          let (found, h, i, j) =
            look-stored server around config r ref generation w2 v _ value on enabled (p ∙ quiet)
              (g (generation_key generation) (λ e. apart (sym e))
                ∙ ap (λ s. get s (generation_key generation)) same
                ∙ counter)
              (write-fits key value (count_miss server around config w1) (on _) fits)
              (decode-encode r value) in
          rw (get_or_compute-miss w key value missed) (
            refl,
            ap (λ x. x.0) (get_or_compute-hit w2 value other found),
            ap (λ x. x.1.hits) (get_or_compute-hit w2 value other found) ∙ h,
          )

      -- The stale set. A lookup misses, the catalogue is written and its generation bumped while
      -- the loader of the lookup runs, and only then the lookup stores what it loaded. With the
      -- cache enabled, a server that answers, no bump outstanding, a counter that is a number
      -- under a key of its own, and nothing stored for the lookup under this generation or the
      -- next: a lookup after that does not answer the stale value, it answers what its own loader
      -- does.
      pub stale_write :
          (w : World server around config) (v : ℕ) (reason : String) (stale now : V)
          → ((n : ℕ) → net n ≡ answered)
          → config.enabled ≡ true
          → w.pending ≡ none
          → get w.server_state (generation_key generation) ≡ some (number v)
          → get_buffer w.server_state (entry_key server around config ref v) ≡ none
          → get_buffer w.server_state (entry_key server around config ref (v + 1)) ≡ none
          → generation_key generation ≢ entry_key server around config ref v
          → generation_key generation ≢ entry_key server around config ref (v + 1)
          → let key = entry_key server around config ref v in
            let (looked, w1) = look server around config r ref generation w in
            let w2 = bump server around config generation reason w1 in
            let w3 = write server around config r key stale w2 in
            (looked ≡ miss key)
            × ((get_or_compute server around config r ref generation (some now) w3).0 ≡ some now)
      stale_write w v reason stale now on enabled idle counter absent absent' apart apart' =
          let key = entry_key server around config ref v in
          let gk = generation_key generation in
          let (missed, quiet, same) =
            look-absent server around config r ref generation w v on enabled idle counter absent in
          let w1 = (look server around config r ref generation w).1 in
          let (counted, quiet', _, kept) =
            bump-answered generation reason w1 v (on _) enabled
              (ap (λ s. get s gk) same ∙ counter) in
          let w2 = bump server around config generation reason w1 in
          let w3 = write server around config r key stale w2 in
          let (p, g, b) = write-others key stale w2 (on _) in
          let (missed', _, _) =
            look-absent server around config r ref generation w3 (v + 1) on enabled (p ∙ quiet')
              (g gk (λ e. apart (sym e)) ∙ counted)
              (b _ (entry_key-ne server around config ref v (v + 1) (omega arith))
                ∙ kept _ apart'
                ∙ ap (λ s. get_buffer s (entry_key server around config ref (v + 1))) same
                ∙ absent') in
          (missed, ap (λ x. x.0) (get_or_compute-miss w3 _ now missed'))
