-- ===== src/RateLimit/Bucket/Wait.antt =====
-- When a bucket that refused has its next token, and what the lifetime of its hash may hide.
use whisky_scrapper_node.Prelude.{
  ℕ, ◌+◌, ◌-◌, ◌*◌, ◌≤◌, ◌<◌, ◌≡◌, ◌↔◌, none, true, false, arith, leb→le, le→leb, lt→ltb, refl,
}
use native.Mathlib.Nat.{div-lt_iff_lt-mul}
use whisky_scrapper_node.RateLimit.Bucket.{
  RateLimitRule, Stored, ceil_div, refilled, available, spend, charge, affords, capacity, wait_for,
  lifetime,
}

-- `ceil_div a b` is the least number that `b` times it reaches `a`.
ceil_div-le_iff : (a b n : ℕ) → 0 < b → (ceil_div a b ≤ n) ↔ (a ≤ n * b)
ceil_div-le_iff a b n h =
    let fits = div-lt_iff_lt-mul {x = a + b - 1} {y = n + 1} h in
    (λ k. omega (arith, fits.0 (omega arith)), λ k. omega (arith, fits.1 (omega arith)))

spend_refused : (tokens : ℕ) → affords tokens ≡ false → (spend tokens ≡ tokens) × (tokens < 1000)
unfolding spend
spend_refused tokens h = (ground arith, ground arith)

affords-refilled_iff :
    (rule : RateLimitRule) (now later tokens : ℕ)
    → 0 < rule.rate_per_sec
    → 0 < rule.burst
    → tokens < 1000
    → now ≤ later
    → (affords (refilled rule later tokens now) ≡ true) ↔ (now + wait_for rule tokens ≤ later)
unfolding refilled wait_for
affords-refilled_iff rule now later tokens pos room few h =
    let fits = ceil_div-le_iff (1000 - tokens) rule.rate_per_sec (later - now) pos in
    let needs : wait_for rule tokens ≡ ceil_div (1000 - tokens) rule.rate_per_sec =
      rw (lt→ltb _ _ few) refl in
    (
      λ e.
          let enough : 1000 - tokens ≤ (later - now) * rule.rate_per_sec =
            omega (arith, leb→le _ _ e) in
          omega (arith, fits.0, fits.1 enough, needs),
      λ k. let enough = fits.0 (omega (arith, needs, k)) in le→leb _ _ (omega (arith, enough)),
    )

-- After a refusal, a charge at a later time is allowed exactly when the stated wait has passed
-- (for a positive rate and burst, and no other charge between the two).
pub charge_wait :
    (rule : RateLimitRule) (now later : ℕ) (stored : Stored)
    → 0 < rule.rate_per_sec
    → 0 < rule.burst
    → (charge rule now stored).0 ≡ false
    → now ≤ later
    → ((charge rule later (charge rule now stored).1).0 ≡ true)
      ↔ (now + wait_for rule (spend (available rule now stored)) ≤ later)
unfolding charge available
charge_wait rule now later stored pos room refused h =
    let (same, few) = spend_refused (available rule now stored) refused in
    rw same (affords-refilled_iff rule now later (available rule now stored) pos room few h)

refilled_full :
    (rule : RateLimitRule) (now later left : ℕ)
    → 0 < rule.rate_per_sec
    → now + lifetime rule left ≤ later
    → refilled rule later left now ≡ capacity rule
unfolding refilled lifetime
refilled_full rule now later left pos h =
    let fits = ceil_div-le_iff (capacity rule - left) rule.rate_per_sec (later - now) pos in
    omega (arith, fits.0 (omega (arith, h)))

-- The lifetime that the script gives to a bucket's hash cannot be observed: once it has passed, a
-- charge that still finds the hash answers and stores the same as one that finds it expired (for a
-- positive rate).
pub lifetime_hides :
    (rule : RateLimitRule) (now later : ℕ) (stored : Stored)
    → 0 < rule.rate_per_sec
    → now + lifetime rule (spend (available rule now stored)) ≤ later
    → charge rule later (charge rule now stored).1
      ≡ charge rule later (record { tokens = none; updated = none })
unfolding charge available
lifetime_hides rule now later stored pos h =
    rw (refilled_full rule now later (spend (available rule now stored)) pos h)
