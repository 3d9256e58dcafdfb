-- ===== src/RateLimit/Script.antt =====
-- The charge script over a chain of buckets (app/rate-limit/rate-limit-consume.script.ts). `KEYS`
-- and `ARGV` are lists, the hash commands are the server's, and `now` is the server's clock in
-- milliseconds, read once.

use whisky_scrapper_node.Prelude.{
  ℕ, String, ◌/◌, Option, none, some, List, [], ◌∷◌, ◌++◌, if◌then◌else◌,
}
use whisky_scrapper_node.Hashes.{HashServer}
use whisky_scrapper_node.RateLimit.Bucket.{
  RateLimitRule, Stored, available, spend, lifetime, wait_for, charge,
}

-- How many numbers the script returns for each bucket it charged.
abbrev pub reply_fields : ℕ
reply_fields = 3

-- The three numbers of one bucket.
unfoldable pub answer : RateLimitRule → ℕ → Stored → List ℕ
answer rule now stored =
    let left = spend (available rule now stored) in
    (if (charge rule now stored).0 then 1 else 0) ∷ (left / 1000) ∷ wait_for rule left ∷ []

module _ (server : HashServer) where
  open server use {State, hget, hset, pexpire}

  -- `HMGET key t u`.
  unfoldable pub read_bucket : State → String → Stored
  read_bucket s key = record { tokens = hget s key "t"; updated = hget s key "u" }

  -- `HSET key t tokens u nowMs` and `PEXPIRE key full`.
  unfoldable pub write_bucket : RateLimitRule → ℕ → Stored → State → String → State
  write_bucket rule now stored s key =
      let left = spend (available rule now stored) in
      pexpire (hset (hset s key "t" left) key "u" now) key (lifetime rule left)

  -- The loop. Its answer is `none` where a key has no rate or no burst among the arguments, at
  -- which the script raises an error.
  unfoldable pub consume_script : ℕ → List String → List ℕ → State → Option (List ℕ) × State
  consume_script now [] args s = (some [], s)
  consume_script now (key ∷ keys) (rate ∷ burst ∷ args) s =
      let rule : RateLimitRule = record { rate_per_sec = rate; burst = burst } in
      let stored = read_bucket s key in
      let s' = write_bucket rule now stored s key in
      let (later, s'') = consume_script now keys args s' in
      if (charge rule now stored).0
      then (elim later [ none ↦ none | some reply ↦ some (answer rule now stored ++ reply) ], s'')
      else (some (answer rule now stored), s')
  consume_script now (key ∷ keys) _ s = (none, s)
