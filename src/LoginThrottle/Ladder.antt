-- ===== src/LoginThrottle/Ladder.antt =====
-- One caller's position on the ladder and the decisions of the two scripts on it
-- (interfaces/auth-throttle.interfaces.ts, domain/auth/services/auth-throttle.script.ts). Times are
-- in milliseconds.
pub mod Penalty
pub mod Climb
pub mod Guesses
use whisky_scrapper_node.Prelude.{
  ℕ, zero, suc, ◌+◌, ◌-◌, ◌*◌, min, Option, none, some, Bool, true, false, List, [], ◌∷◌, leb, ltb,
  ◌&&◌, if◌then◌else◌, length, get_elem?,
}

pub record LoginThrottleState : Type 0 where
  pub failures : ℕ
  pub stage : ℕ
  pub blocked_until : ℕ
  pub last_attempt_at : ℕ

-- A caller of whom nothing is stored.
abbrev pub fresh : LoginThrottleState
fresh = record { failures = 0; stage = 0; blocked_until = 0; last_attempt_at = 0 }

-- The four integers of the attempt script.
pub record Answer : Type 0 where
  pub allowed : ℕ
  pub retry_after_ms : ℕ
  pub failures : ℕ
  pub blocked_for : ℕ

-- What is left of a penalty, 0 if none is in force.
abbrev pub blocked_for : ℕ → LoginThrottleState → ℕ
blocked_for now l = l.blocked_until - now

-- `sinceLast >= 0 and sinceLast < interval`.
abbrev pub too_soon : ℕ → ℕ → LoginThrottleState → Bool
too_soon now interval l = leb l.last_attempt_at now && ltb (now - l.last_attempt_at) interval

-- The answer of the attempt script, with its early returns.
unfoldable pub attempt : ℕ → ℕ → LoginThrottleState → Answer
attempt now interval l =
    if ltb 0 (blocked_for now l)
    then record {
      allowed = 0;
      retry_after_ms = blocked_for now l;
      failures = l.failures;
      blocked_for = blocked_for now l;
    }
    else if too_soon now interval l
    then record {
      allowed = 0;
      retry_after_ms = interval - (now - l.last_attempt_at);
      failures = l.failures;
      blocked_for = 0;
    }
    else record { allowed = 1; retry_after_ms = 0; failures = l.failures; blocked_for = 0 }

-- The position after it: only an allowed attempt is stamped.
unfoldable pub stamped : ℕ → ℕ → LoginThrottleState → LoginThrottleState
stamped now interval l = elim (attempt now interval l).allowed [
  | zero ↦ l
  | suc n ↦ record l { last_attempt_at = now }
]

-- `ARGV[2 + math.min(stage + 1, rungs)]`, in seconds: `none` on an empty ladder.
unfoldable pub penalty : List ℕ → ℕ → Option ℕ
penalty ladder stage = get_elem? ladder (min (stage + 1) (length ladder) - 1)

-- The failure script: the position after it, and the penalty that it imposes, in milliseconds.
-- `none` where the script raises an error, for want of a penalty to impose.
unfoldable pub fail : ℕ → ℕ → List ℕ → LoginThrottleState → Option (LoginThrottleState × ℕ)
fail now per_stage ladder l =
    if ltb (l.failures + 1) per_stage
    then some (record l { failures = l.failures + 1; last_attempt_at = now }, 0)
    else elim (penalty ladder l.stage) [
      | none ↦ none
      | some seconds ↦ some (
        record {
          failures = 0;
          stage = l.stage + 1;
          blocked_until = now + seconds * 1000;
          last_attempt_at = now;
        },
        seconds * 1000,
      )
    ]

-- constants/auth.constants.ts
abbrev pub attempts_per_stage : ℕ
attempts_per_stage = 5

abbrev pub penalty_seconds : List ℕ
penalty_seconds = 5 ∷ 10 ∷ 60 ∷ 300 ∷ 900 ∷ 3600 ∷ []

abbrev pub min_interval_ms : ℕ
min_interval_ms = 1000

abbrev pub retention_sec : ℕ
retention_sec = 7200
