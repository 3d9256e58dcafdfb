-- ===== src/LoginThrottle/Scripts.antt =====
-- The two scripts over the server's hashes (domain/auth/services/auth-throttle.script.ts), with
-- `ARGV` as a list and `now` the server's clock in milliseconds.
pub mod Refine
use whisky_scrapper_node.Prelude.{
  ℕ, zero, suc, String, ◌+◌, ◌*◌, Option, none, some, Bool, List, [], ◌∷◌, ltb, leb, ◌-◌, ◌&&◌,
  if◌then◌else◌,
}
use whisky_scrapper_node.Hashes.{HashServer}
use whisky_scrapper_node.LoginThrottle.Ladder.{LoginThrottleState, penalty}

-- `tonumber(stored) or 0`.
abbrev or_zero : Option ℕ → ℕ
or_zero none = 0
or_zero (some n) = n

module _ (server : HashServer) where
  open server use {State, hget, hset, pexpire}

  -- The fields that the scripts read with `HMGET`.
  unfoldable pub read_ladder : State → String → LoginThrottleState
  read_ladder s key = record {
    failures = or_zero (hget s key "failures");
    stage = or_zero (hget s key "stage");
    blocked_until = or_zero (hget s key "blockedUntil");
    last_attempt_at = or_zero (hget s key "lastAttemptAt");
  }

  -- `EXPIRE key retention`, in seconds.
  abbrev expire : State → String → ℕ → State
  expire s key retention = pexpire s key (retention * 1000)

  -- `AUTH_THROTTLE_ATTEMPT_SCRIPT`: the four integers, and the state. `none` where an argument is
  -- missing, at which the script raises an error.
  unfoldable pub attempt_script : ℕ → String → List ℕ → State → Option (List ℕ) × State
  attempt_script now key (interval ∷ retention ∷ args) s =
      let blocked_until = or_zero (hget s key "blockedUntil") in
      let last_attempt_at = or_zero (hget s key "lastAttemptAt") in
      let failures = or_zero (hget s key "failures") in
      let blocked_for = blocked_until - now in
      if ltb 0 blocked_for
      then (some (0 ∷ blocked_for ∷ failures ∷ blocked_for ∷ []), s)
      else if leb last_attempt_at now && ltb (now - last_attempt_at) interval
      then (some (0 ∷ (interval - (now - last_attempt_at)) ∷ failures ∷ 0 ∷ []), s)
      else (some (1 ∷ 0 ∷ failures ∷ 0 ∷ []), expire (hset s key "lastAttemptAt" now) key retention)
  attempt_script now key _ s = (none, s)

  -- `AUTH_THROTTLE_FAILURE_SCRIPT`: the two integers, and the state.
  unfoldable pub failure_script : ℕ → String → List ℕ → State → Option (List ℕ) × State
  failure_script now key (per_stage ∷ retention ∷ ladder) s =
      let l = read_ladder s key in
      let failures = l.failures + 1 in
      if ltb failures per_stage
      then (
        some (failures ∷ 0 ∷ []),
        expire (hset (hset s key "failures" failures) key "lastAttemptAt" now) key retention,
      )
      else elim (penalty ladder l.stage) [
        | none ↦ (none, s)
        | some seconds ↦
            let blocked = seconds * 1000 in
            let s₁ = hset s key "failures" 0 in
            let s₂ = hset s₁ key "stage" (l.stage + 1) in
            let s₃ = hset s₂ key "blockedUntil" (now + blocked) in
            let s₄ = hset s₃ key "lastAttemptAt" now in
            (some (0 ∷ blocked ∷ []), expire s₄ key retention)
      ]
  failure_script now key _ s = (none, s)
