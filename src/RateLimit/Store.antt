-- ===== src/RateLimit/Store.antt =====
-- The client of the charge script (app/rate-limit/rate-limit.store.ts): it sends a request's
-- charges, reads the reply into decisions, and fails open.

pub mod Decode
pub mod Failures
use whisky_scrapper_node.Prelude.{
  ℕ, String, suc, ◌+◌, ◌*◌, ◌/◌, ◌%◌, Option, none, some, Bool, true, false, List, [], ◌∷◌, map,
  if◌then◌else◌, ◌&&◌, leb, ltb, ◌==◌, length, all, take, get_elem?,
}
use Prim.Native.String
use whisky_scrapper_node.Hashes.{
  HashServer, Delivery, answered, lost_before, lost_after, Reply, not_array, array,
}
use whisky_scrapper_node.RateLimit.Bucket.{RateLimitRule}
use whisky_scrapper_node.RateLimit.Script.{reply_fields, consume_script}

pub record RateLimitCharge : Type 0 where
  pub key : String
  pub rule : RateLimitRule

pub record RateLimitDecision : Type 0 where
  pub allowed : Bool
  pub limit : ℕ
  pub remaining : ℕ
  pub retry_after_ms : ℕ

abbrev is_number : Option ℕ → Bool
is_number none = false
is_number (some n) = true

abbrev unwrap : List (Option ℕ) → List ℕ
unwrap [] = []
unwrap (none ∷ values) = unwrap values
unwrap (some n ∷ values) = n ∷ unwrap values

unfoldable pub numbers : Reply → ℕ → Option (List ℕ)
numbers not_array expected = none
numbers (array values) expected =
    if (length values % reply_fields == 0)
      && leb (length values) (expected * reply_fields)
      && all is_number values
    then some (unwrap values)
    else none

-- `reply[at] ?? 0`.
abbrev or_zero : Option ℕ → ℕ
or_zero none = 0
or_zero (some n) = n

unfoldable pub decision : List ℕ → ℕ → RateLimitCharge → RateLimitDecision
decision reply index charge =
    let at = index * reply_fields in
    record {
      allowed = elim (get_elem? reply at) [ none ↦ false | some n ↦ n == 1 ];
      limit = charge.rule.burst;
      remaining = or_zero (get_elem? reply (at + 1));
      retry_after_ms = or_zero (get_elem? reply (at + 2));
    }

-- `charges.map(...)` from an index on.
unfoldable pub decisions_from : List ℕ → ℕ → List RateLimitCharge → List RateLimitDecision
decisions_from reply index [] = []
decisions_from reply index (charge ∷ charges) =
    decision reply index charge ∷ decisions_from reply (suc index) charges

unfoldable pub decisions : List ℕ → List RateLimitCharge → List RateLimitDecision
decisions reply charges = decisions_from reply 0 (take (length reply / reply_fields) charges)

-- The mutable fields of the store, with the lines that it has logged: each states how many
-- failures it stands for besides its own.
pub record Limiter : Type 0 where
  pub suppressed : ℕ
  pub last_failure_log_at : Option ℕ
  pub logged : List ℕ

-- How often a run of failures is summarised into one warning, in milliseconds.
abbrev pub failure_log_window_ms : ℕ
failure_log_window_ms = 60000

-- `loggedAt !== null && now - loggedAt < WINDOW`.
abbrev quiet : ℕ → Option ℕ → Bool
quiet now none = false
quiet now (some logged_at) = ltb now (logged_at + failure_log_window_ms)

pub record_failure : ℕ → Limiter → Limiter
record_failure now l =
    if quiet now l.last_failure_log_at
    then record l { suppressed = l.suppressed + 1 }
    else record l {
      suppressed = 0;
      last_failure_log_at = some now;
      logged = l.suppressed ∷ l.logged;
    }

abbrev key_root : String
key_root = "ratelimit"

-- The `KEYS` and the `ARGV` of a request's charges.
unfoldable pub keys_of : List RateLimitCharge → List String
keys_of [] = []
keys_of (charge ∷ charges) = String.◌++◌ key_root (String.◌++◌ ":" charge.key) ∷ keys_of charges

unfoldable pub args_of : List RateLimitCharge → List ℕ
args_of [] = []
args_of (charge ∷ charges) = charge.rule.rate_per_sec ∷ charge.rule.burst ∷ args_of charges

abbrev reply_of : Option (List ℕ) → Reply
reply_of none = not_array
reply_of (some reply) = array (map some reply)

abbrev is_error : Option (List ℕ) → Bool
is_error none = true
is_error (some reply) = false

module _ (server : HashServer) where
  open server use {State}

  -- `run`: `at` is the server's clock, `now` the process's. A script that raises an error, and a
  -- call that fails or times out, are reported and answered by `null`.
  unfoldable pub run :
      Delivery → ℕ → ℕ → List RateLimitCharge → State → Limiter → Reply × State × Limiter
  run answered at now charges s l =
      let (reply, s') = consume_script server at (keys_of charges) (args_of charges) s in
      if is_error reply then (not_array, s', record_failure now l) else (reply_of reply, s', l)
  run lost_after at now charges s l = (
    not_array,
    (consume_script server at (keys_of charges) (args_of charges) s).1,
    record_failure now l,
  )
  run lost_before at now charges s l = (not_array, s, record_failure now l)

  unfoldable pub consume :
      Delivery
      → ℕ
      → ℕ
      → List RateLimitCharge
      → State
      → Limiter
      → List RateLimitDecision × State × Limiter
  consume d at now [] s l = ([], s, l)
  consume d at now (charge ∷ charges) s l =
      let (reply, s', l') = run d at now (charge ∷ charges) s l in
      (
        elim (numbers reply (length (charge ∷ charges))) [
          | none ↦ []
          | some reply' ↦ decisions reply' (charge ∷ charges)
        ],
        s',
        l',
      )
