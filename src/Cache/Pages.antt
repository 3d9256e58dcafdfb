-- ===== src/Cache/Pages.antt =====
-- The page-addressable sets of VersionedCacheService (lib/cache/versioned-cache.service.ts): an index
-- blob and a hash of entries by position. A pipeline that fails may have reached the server in part;
-- how many of its commands did is a parameter. Log lines and deadlines are left out.
pub mod Fields
pub mod Stored
pub mod Reads
pub mod Whole
pub mod Again
mod Tests
use whisky_scrapper_node.Prelude.{
  ℕ, String, ◌+◌, ◌-◌, ◌*◌, ◌/◌, Option, none, some, not, ◌==◌, List, [], ◌∷◌, ◌++◌, map, ltb,
  if◌then◌else◌, length, take, get_elem?, slices,
}
use whisky_scrapper_node.Hashes.{answered, lost_before, lost_after}
use whisky_scrapper_node.Cache.Codec.{Runtime, encode}
use whisky_scrapper_node.Cache.Server.{CacheServer}
use whisky_scrapper_node.Cache.Hashes.{SetServer}
use whisky_scrapper_node.Cache.Service.{
  CacheSettings, CacheEntryRef, Surroundings, World, ◌++ₛ◌, entry_key, command, tell,
  usable_generation, read, count_hit, count_miss, count_error, count_bypass,
}

-- What a selection over an index yields.
pub record CachePagePick : Type 0 where
  pub positions : List ℕ
  pub total : ℕ

pub record CacheIndexedSet (I E : Type 0) : Type 0 where
  pub index : I
  pub entries : List E

pub data CachePageSource : Type 0 where
  hit miss bypass : CachePageSource

-- A page; an entry is `none` where it is undefined, beyond the end of the set.
pub record CachePage (E : Type 0) : Type 0 where
  pub entries : List (Option E)
  pub total : ℕ
  pub source : CachePageSource

unfoldable pub pick_in_memory :
    {I E : Type 0} → CacheIndexedSet I E → (I → CachePagePick) → CachePageSource → CachePage E
pick_in_memory set pick source = record {
  entries = map (get_elem? set.entries) (pick set.index).positions;
  total = (pick set.index).total;
  source = source;
}

-- `chunks`, for a positive size.
unfoldable pub chunks : {A : Type 0} → List A → ℕ → List (List A)
chunks items size = slices ((length items + size - 1) / size) 0 size items

-- CACHE_SET_HSET_CHUNK
abbrev pub hset_chunk : ℕ
hset_chunk = 500

pub record CacheSetKeys : Type 0 where
  pub index : String
  pub entries : String

-- CACHE_SET_INDEX_SUFFIX and CACHE_SET_ENTRIES_SUFFIX
unfoldable pub set_keys : String → CacheSetKeys
set_keys base = record { index = base ++ₛ ":idx"; entries = base ++ₛ ":grp" }

pub data EntriesRead (E : Type 0) : Type 0 where
  entries : List E → EntriesRead E
  partial : EntriesRead E
  failed : EntriesRead E

-- The items, if all are there.
abbrev pub all_some : {A : Type 0} → List (Option A) → Option (List A)
all_some [] = some []
all_some (none ∷ xs) = none
all_some (some x ∷ xs) = elim (all_some xs) [ none ↦ none | some ys ↦ some (x ∷ ys) ]

-- The values of a chunk under the names of their positions, from a position on.
abbrev pub numbered : {A : Type 0} → (ℕ → String) → ℕ → List A → List (String × A)
numbered decimal n [] = []
numbered decimal n (x ∷ xs) = (decimal n, x) ∷ numbered decimal (n + 1) xs

-- The fields of the chunks, from the i-th chunk on.
unfoldable pub chunk_fields :
    {A : Type 0} → (ℕ → String) → ℕ → ℕ → List (List A) → List (List (String × A))
chunk_fields decimal size i [] = []
chunk_fields decimal size i (chunk ∷ rest) =
    numbered decimal (i * size) chunk ∷ chunk_fields decimal size (i + 1) rest

abbrev pub sum_lengths : List (List ℕ) → ℕ
sum_lengths [] = 0
sum_lengths (x ∷ xs) = length x + sum_lengths xs

abbrev pub in_turn : {S : Type 0} → List (S → S) → S → S
in_turn [] s = s
in_turn (change ∷ rest) s = in_turn rest (change s)

module _ (server : CacheServer) (hashes : SetServer server) (around : Surroundings) (cut : ℕ → ℕ)
    (config : CacheSettings) where
  open server use {State, set_ex, del}
  open hashes use {hmget, hset, expire}
  open around use {decimal, net}

  -- A pipeline, of which no reply is read.
  unfoldable pub pipeline :
      List (State → State) → World server around config → World server around config
  pipeline changes w = elim (net w.sent) [
    | answered ↦ record w { server_state = in_turn changes w.server_state; sent = w.sent + 1 }
    | lost_before ↦ record w { sent = w.sent + 1; errors = w.errors + 1 }
    | lost_after ↦ record w {
      server_state = in_turn (take (cut w.sent) changes) w.server_state;
      sent = w.sent + 1;
      errors = w.errors + 1;
    }
  ]

  module _ {I E : Type 0} (ri : Runtime I) (re : Runtime E) where
    unfoldable pub read_entries :
        String → List ℕ → World server around config → EntriesRead E × World server around config
    read_entries key positions w =
        let (raw, w') =
          command server around config (λ s. (hmget s key (map decimal positions), s)) w in
        if length positions == 0 then (entries [], w) else elim raw [
          | none ↦ (failed, w')
          | some values ↦
              if not (length values == length positions)
              then (partial, w')
              else elim (all_some values) [
                | none ↦ (partial, w')
                | some texts ↦ elim (all_some (map re.parse texts)) [
                  | none ↦ (partial, count_error server around config w')
                  | some parsed ↦ (entries parsed, w')
                ]
              ]
        ]

    unfoldable pub read_page :
        CacheSetKeys
        → (I → CachePagePick)
        → World server around config
        → Option (CachePage E) × World server around config
    read_page keys pick w =
        let (cached, w1) = read server around config ri keys.index w in
        elim cached [
          | none ↦ (none, w1)
          | some index ↦
              let (found, w2) = read_entries keys.entries (pick index).positions w1 in
              elim found [
                | failed ↦ (none, w2)
                | partial ↦
                    (none, tell server around config (λ s. del (del s keys.index) keys.entries) w2)
                | entries es ↦ (
                  some (record { entries = map some es; total = (pick index).total; source = hit }),
                  w2,
                )
              ]
        ]

    -- The commands of the pipeline of `writeSet`.
    unfoldable pub set_commands : CacheSetKeys → List ℕ → List (List ℕ) → List (State → State)
    set_commands keys index texts =
        (λ s. set_ex s keys.index index config.ttl_sec)
        ∷ (λ s. del s keys.entries)
        ∷ (map (λ fields s. hset s keys.entries fields)
              (chunk_fields decimal hset_chunk 0 (chunks texts hset_chunk))
            ++ (if length texts == 0 then [] else (λ s. expire s keys.entries config.ttl_sec) ∷ []))

    unfoldable pub write_set :
        CacheSetKeys → CacheIndexedSet I E → World server around config → World server around config
    write_set keys set w =
        let index = encode ri set.index in
        let texts = map re.stringify set.entries in
        if ltb config.max_set_bytes (length index + sum_lengths texts)
        then count_bypass server around config w
        else pipeline (set_commands keys index texts) w

    -- `getPage`. A loader that rejects is `none`, and so is the page then.
    unfoldable pub get_page :
        CacheEntryRef
        → String
        → Option (CacheIndexedSet I E)
        → (I → CachePagePick)
        → World server around config
        → Option (CachePage E) × World server around config
    get_page ref generation loaded pick w =
        let (version, w1) = usable_generation server around config generation w in
        elim version [
          | none ↦ (
            elim loaded [ none ↦ none | some set ↦ some (pick_in_memory set pick bypass) ],
            count_bypass server around config w1,
          )
          | some v ↦
              let keys = set_keys (entry_key server around config ref v) in
              let (read, w2) = read_page keys pick w1 in
              elim read [
                | some page ↦ (some page, count_hit server around config w2)
                | none ↦ elim loaded [
                  | none ↦ (none, w2)
                  | some set ↦ (
                    some (pick_in_memory set pick miss),
                    write_set keys set (count_miss server around config w2),
                  )
                ]
              ]
        ]
