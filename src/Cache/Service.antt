-- ===== src/Cache/Service.antt =====
-- The class VersionedCacheService (lib/cache/versioned-cache.service.ts): its commands, its
-- generations and the lookup of a value. Log lines and metrics are left out. The n-th command of a
-- process meets the n-th fate of its network, and the time is that of the command being sent.
pub mod Lookup
pub mod Stale
use Prim.Native.String
use text.Mathlib.Text.{◌==◌ as str_eq}
use whisky_scrapper_node.Prelude.{
  ℕ, String, ◌+◌, ◌/◌, ◌≡◌, Option, none, some, Bool, true, false, not, List, [], ◌∷◌, ◌++◌, ltb,
  if◌then◌else◌, length,
}
use whisky_scrapper_node.Hashes.{Delivery, answered, lost_before, lost_after}
use whisky_scrapper_node.Cache.Codec.{Runtime, encode, decode}
use whisky_scrapper_node.Cache.Server.{CacheServer, Counter, number, not_a_number}

-- The settings that the service reads.
pub record CacheSettings : Type 0 where
  pub enabled : Bool
  pub boot_bump : Bool
  pub ttl_sec : ℕ
  pub max_entry_bytes : ℕ
  pub max_set_bytes : ℕ

pub record CacheEntryRef : Type 0 where
  pub scope : String
  pub suffix : String

-- The names of a bump that is outstanding.
pub record Pending : Type 0 where
  pub generation : String
  pub reason : String

infixr 66 ◌++ₛ◌
abbrev pub ◌++ₛ◌ : String → String → String
s ++ₛ t = String.◌++◌ s t

-- CACHE_KEY_ROOT
abbrev pub key_root : String
key_root = "cache"

abbrev pub generation_key : String → String
generation_key generation = key_root ++ₛ ":gen:" ++ₛ generation

-- What surrounds the process: the text of a number, the network and the clock.
pub record Surroundings : Type 0 where
  pub decimal : ℕ → String
  pub decimal_injective : (m n : ℕ) → decimal m ≡ decimal n → m ≡ n
  pub net : ℕ → Delivery
  pub clock : ℕ → ℕ

module _ (server : CacheServer) (around : Surroundings) (config : CacheSettings) where
  open server use {State, get, set_nx, incr, get_buffer, set_ex, del}
  open around use {decimal, net, clock}

  -- The server, how many commands the process has sent, and the fields of the service.
  pub record World : Type 0 where
    pub server_state : State
    pub sent : ℕ
    pub hits : ℕ
    pub misses : ℕ
    pub errors : ℕ
    pub bypasses : ℕ
    pub generation : Option ℕ
    pub last_bump_at : Option ℕ
    pub pending : Option Pending

  -- What the counters are, and the state of the generation.
  pub record CacheStats : Type 0 where
    pub enabled : Bool
    pub hits : ℕ
    pub misses : ℕ
    pub errors : ℕ
    pub bypasses : ℕ
    pub generation : Option ℕ
    pub last_bump_at : Option ℕ
    pub dirty : Bool

  unfoldable pub stats : World → CacheStats
  stats w = record {
    enabled = config.enabled;
    hits = w.hits;
    misses = w.misses;
    errors = w.errors;
    bypasses = w.bypasses;
    generation = w.generation;
    last_bump_at = w.last_bump_at;
    dirty = elim w.pending [ none ↦ false | some p ↦ true ];
  }

  unfoldable pub entry_key : CacheEntryRef → ℕ → String
  entry_key ref version =
      let base = key_root ++ₛ ":" ++ₛ ref.scope ++ₛ ":g" ++ₛ decimal version in
      if str_eq ref.suffix "" then base else base ++ₛ ":" ++ₛ ref.suffix

  -- `command`: the reply, or `none` where it failed or timed out.
  unfoldable pub command : {A : Type 0} → (State → A × State) → World → Option A × World
  command send w =
      let (reply, s') = send w.server_state in
      elim (net w.sent) [
        | answered ↦ (some reply, record w { server_state = s'; sent = w.sent + 1 })
        | lost_before ↦ (none, record w { sent = w.sent + 1; errors = w.errors + 1 })
        | lost_after ↦
            (none, record w { server_state = s'; sent = w.sent + 1; errors = w.errors + 1 })
      ]

  -- `null` of the reply and `null` of a failure are the same.
  abbrev pub flat : {A : Type 0} → Option (Option A) → Option A
  flat none = none
  flat (some o) = o

  -- A command that only reads.
  unfoldable pub query : {A : Type 0} → (State → Option A) → World → Option A × World
  query read w = let (reply, w') = command (λ s. (read s, s)) w in (flat reply, w')

  -- A command of which the reply is not read.
  unfoldable pub tell : (State → State) → World → World
  tell change w = (command {A = ℕ} (λ s. (0, change s)) w).1

  abbrev pub seed : World → ℕ
  seed w = clock w.sent / 1000

  -- `Number(replies[1]?.[1] ?? this.generation)`.
  abbrev pub moved : Option ℕ → Option ℕ → ℕ
  moved (some n) old = n
  moved none (some n) = n
  moved none none = 0

  unfoldable pub bump : String → String → World → World
  bump generation reason w =
      let key = generation_key generation in
      let (replies, w') = command (λ s. incr (set_nx s key (seed w)) key) w in
      if not config.enabled then w else elim replies [
        | none ↦ record w' { pending = some (record { generation = generation; reason = reason }) }
        | some stepped ↦ record w' {
          pending = none;
          last_bump_at = some (clock w'.sent);
          generation = some (moved stepped w'.generation);
        }
      ]

  unfoldable pub on_application_bootstrap : World → World
  on_application_bootstrap w =
      let bumped = bump "catalogue" "boot" w in
      if not config.enabled then w else if not config.boot_bump then w else bumped

  unfoldable pub remember : Counter → World → Option ℕ × World
  remember (number n) w = (some n, record w { generation = some n })
  remember not_a_number w = (none, w)

  unfoldable pub read_generation : String → World → Option ℕ × World
  read_generation generation w =
      let key = generation_key generation in
      let (current, w1) = query (λ s. get s key) w in
      let w2 = tell (λ s. set_nx s key (seed w1)) w1 in
      let (seeded, w3) = query (λ s. get s key) w2 in
      elim current [
        | some raw ↦ remember raw w1
        | none ↦ elim seeded [ none ↦ (none, w3) | some raw ↦ remember raw w3 ]
      ]

  unfoldable pub usable_generation : String → World → Option ℕ × World
  usable_generation generation w = if not config.enabled then (none, w) else elim w.pending [
    | none ↦ read_generation generation w
    | some outstanding ↦
        let w' = bump outstanding.generation outstanding.reason w in
        elim w'.pending [ some still ↦ (none, w') | none ↦ read_generation generation w' ]
  ]

  -- `ping`: whether the server replied.
  unfoldable pub ping : World → Bool × World
  ping w =
      let (reply, w') = command {A = ℕ} (λ s. (0, s)) w in
      (elim reply [ none ↦ false | some pong ↦ true ], w')

  -- `TransactionUtils.afterCommit`: kept for the commit of the surrounding transaction, or done at
  -- once where there is none. The first result is what the transaction has been asked to do.
  unfoldable pub bump_after_commit :
      String → String → Option (List Pending) → World → Option (List Pending) × World
  bump_after_commit generation reason none w = (none, bump generation reason w)
  bump_after_commit generation reason (some hooks) w =
      (some (hooks ++ record { generation = generation; reason = reason } ∷ []), w)

  -- What a commit does with what it has been asked; a rollback does nothing.
  unfoldable pub committed : List Pending → World → World
  committed [] w = w
  committed (hook ∷ hooks) w = committed hooks (bump hook.generation hook.reason w)

  abbrev pub count_hit : World → World
  count_hit w = record w { hits = w.hits + 1 }

  abbrev pub count_miss : World → World
  count_miss w = record w { misses = w.misses + 1 }

  abbrev pub count_error : World → World
  count_error w = record w { errors = w.errors + 1 }

  abbrev pub count_bypass : World → World
  count_bypass w = record w { bypasses = w.bypasses + 1 }

  module _ {V : Type 0} (r : Runtime V) where
    unfoldable pub read : String → World → Option V × World
    read key w =
        let (payload, w') = query (λ s. get_buffer s key) w in
        elim payload [
          | none ↦ (none, w')
          | some bytes ↦ elim (decode r bytes) [
            | some value ↦ (some value, w')
            | none ↦ (none, tell (λ s. del s key) (count_error w'))
          ]
        ]

    unfoldable pub write : String → V → World → World
    write key value w =
        let payload = encode r value in
        if ltb config.max_entry_bytes (length payload)
        then count_bypass w
        else tell (λ s. set_ex s key payload config.ttl_sec) w

    -- What a lookup knows before it runs its loader: that the cache is not to be used, the value,
    -- or the key to store it under.
    pub data Looked : Type 0 where
      bypass : Looked
      hit : V → Looked
      miss : String → Looked

    -- `getOrCompute` up to its loader.
    unfoldable pub look : CacheEntryRef → String → World → Looked × World
    look ref generation w =
        let (version, w') = usable_generation generation w in
        elim version [
          | none ↦ (bypass, count_bypass w')
          | some v ↦
              let (cached, w'') = read (entry_key ref v) w' in
              elim cached [
                | some value ↦ (hit value, count_hit w'')
                | none ↦ (miss (entry_key ref v), w'')
              ]
        ]

    -- `getOrCompute`. A loader that rejects is `none`, and so is the lookup then.
    unfoldable pub get_or_compute : CacheEntryRef → String → Option V → World → Option V × World
    get_or_compute ref generation loaded w =
        let (looked, w') = look ref generation w in
        elim looked [
          | bypass ↦ (loaded, w')
          | hit value ↦ (some value, w')
          | miss key ↦ elim loaded [
            | none ↦ (none, w')
            | some value ↦ (some value, write key value (count_miss w'))
          ]
        ]
