-- ===== src/RateLimit/Bucket.antt =====
-- One token bucket of the charge script (app/rate-limit/rate-limit-consume.script.ts). The
-- script keeps fractional tokens; here they are counted in thousandths, in which a refill of
-- `elapsed * rate / 1000` tokens is the whole number `elapsed * rate`.
pub mod Window
pub mod Wait
use whisky_scrapper_node.Prelude.{
  ℕ, ◌+◌, ◌-◌, ◌*◌, ◌/◌, min, max, Option, none, some, Bool, true, false, leb, ltb, if◌then◌else◌,
}

-- The refill policy of a bucket.
pub record RateLimitRule : Type 0 where
  pub rate_per_sec : ℕ
  pub burst : ℕ

-- The fields `t` (tokens, in thousandths) and `u` (when they were counted) of a bucket's hash.
pub record Stored : Type 0 where
  pub tokens : Option ℕ
  pub updated : Option ℕ

-- `math.ceil(a / b)`, for a positive `b`.
abbrev pub ceil_div : ℕ → ℕ → ℕ
ceil_div a b = (a + b - 1) / b

abbrev pub capacity : RateLimitRule → ℕ
capacity rule = 1000 * rule.burst

-- The tokens of a bucket that was counted, after the refill since then.
unfoldable pub refilled : RateLimitRule → ℕ → ℕ → ℕ → ℕ
refilled rule now tokens updated =
    min (capacity rule) (tokens + (now - updated) * rule.rate_per_sec)

-- What the script holds in `tokens` before it decides; a bucket with a field missing is full.
unfoldable pub available : RateLimitRule → ℕ → Stored → ℕ
available rule now stored = elim stored.tokens [
  | none ↦ capacity rule
  | some tokens ↦ elim stored.updated [
    | none ↦ capacity rule
    | some updated ↦ refilled rule now tokens updated
  ]
]

-- `tokens >= 1`.
abbrev pub affords : ℕ → Bool
affords tokens = leb 1000 tokens

-- The tokens left after the decision.
unfoldable pub spend : ℕ → ℕ
spend tokens = if affords tokens then tokens - 1000 else tokens

-- `full`: the lifetime given to the hash, until it would next be full.
unfoldable pub lifetime : RateLimitRule → ℕ → ℕ
lifetime rule left = max 1 (ceil_div (capacity rule - left) rule.rate_per_sec)

-- `wait`: milliseconds until one whole token is there.
unfoldable pub wait_for : RateLimitRule → ℕ → ℕ
wait_for rule left = if ltb left 1000 then ceil_div (1000 - left) rule.rate_per_sec else 0

-- One round of the script's loop over one bucket, at one time: whether it allows, and the fields
-- that it stores.
unfoldable pub charge : RateLimitRule → ℕ → Stored → Bool × Stored
charge rule now stored =
    let tokens = available rule now stored in
    (affords tokens, record { tokens = some (spend tokens); updated = some now })
