-- ===== src/RateLimit/Bucket/Window.antt =====
-- How many requests a bucket lets through over a span of time.
use whisky_scrapper_node.Prelude.{
  ℕ, ◌+◌, ◌-◌, ◌*◌, ◌≤◌, ◌≡◌, some, Bool, true, false, List, [], ◌∷◌, arith, if◌then◌else◌,
}
use whisky_scrapper_node.RateLimit.Bucket.{
  RateLimitRule, Stored, refilled, available, spend, charge, affords, capacity,
}

-- The bucket is charged at each of the times, in order: how many charges were allowed.
unfoldable pub allowed_count : RateLimitRule → List ℕ → Stored → ℕ
allowed_count rule [] stored = 0
allowed_count rule (now ∷ later) stored =
    let (allowed, next) = charge rule now stored in
    let rest = allowed_count rule later next in if allowed then rest + 1 else rest

-- The times do not fall, start no earlier than `from` and end no later than `to`.
abbrev pub Within : ℕ → ℕ → List ℕ → Type 0
Within from to [] = from ≤ to
Within from to (now ∷ later) = (from ≤ now) × Within now to later

Within-le : (from to : ℕ) (times : List ℕ) → Within from to times → from ≤ to
Within-le from to [] h = h
Within-le from to (now ∷ later) h = omega (arith, Within-le now to later h.1)

abbrev counted : ℕ → ℕ → Stored
counted tokens updated = record { tokens = some tokens; updated = some updated }

span_add :
    (from now to rate : ℕ)
    → from ≤ now
    → now ≤ to
    → (to - from) * rate ≡ (now - from) * rate + (to - now) * rate
span_add from now to rate h k =
    let e : to - from ≡ (now - from) + (to - now) = omega arith in rw e (omega arith)

refilled-le :
    (rule : RateLimitRule) (now tokens updated : ℕ)
    → refilled rule now tokens updated ≤ tokens + (now - updated) * rule.rate_per_sec
unfolding refilled
refilled-le rule now tokens updated = omega arith

-- One charge takes a whole token if it is allowed.
charged : Bool → ℕ
charged allowed = if allowed then 1 else 0

spend-add-charged : (tokens : ℕ) → spend tokens + charged (affords tokens) * 1000 ≡ tokens
unfolding spend charged
spend-add-charged tokens = ground arith

count-cons :
    (allowed : Bool) (rest : ℕ) → (if allowed then rest + 1 else rest) ≡ rest + charged allowed
unfolding charged
count-cons true rest = omega arith
count-cons false rest = omega arith

-- A counted bucket allows no more than what it holds and what flows in until the end.
allowed_count-counted :
    (rule : RateLimitRule) (times : List ℕ) (tokens from to : ℕ)
    → Within from to times
    → allowed_count rule times (counted tokens from) * 1000
      ≤ tokens + (to - from) * rule.rate_per_sec
unfolding allowed_count charge available
allowed_count-counted rule [] tokens from to h = omega arith
allowed_count-counted rule (now ∷ later) tokens from to (h, k) =
    let have = refilled rule now tokens from in
    rw count-cons (
      omega (
        arith,
        allowed_count-counted rule later (spend have) now to k,
        spend-add-charged have,
        refilled-le rule now tokens from,
        span_add from now to rule.rate_per_sec h (Within-le now to later k),
      ))

available-le :
    (rule : RateLimitRule) (now : ℕ) (stored : Stored) → available rule now stored ≤ capacity rule
unfolding available refilled
available-le rule now stored = ground arith

-- Whatever a bucket holds at first, in any span of time it allows at most its burst and what the
-- rate adds over the span: a thousand times the number of allowed charges is at most a thousand
-- times the burst plus the rate times the length of the span in milliseconds, for charges at any
-- times that do not fall and lie within the span.
pub window_bound :
    (rule : RateLimitRule) (times : List ℕ) (stored : Stored) (from to : ℕ)
    → Within from to times
    → allowed_count rule times stored * 1000 ≤ 1000 * rule.burst + (to - from) * rule.rate_per_sec
unfolding allowed_count charge
window_bound rule [] stored from to h = omega arith
window_bound rule (now ∷ later) stored from to (h, k) =
    let have = available rule now stored in
    rw count-cons (
      omega (
        arith,
        allowed_count-counted rule later (spend have) now to k,
        spend-add-charged have,
        available-le rule now stored,
        span_add from now to rule.rate_per_sec h (Within-le now to later k),
      ))
