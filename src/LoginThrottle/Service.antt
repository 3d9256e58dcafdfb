-- ===== src/LoginThrottle/Service.antt =====
-- The client of the two scripts (domain/auth/services/auth-throttle.service.ts), failing open.
pub mod Outcomes
use Prim.Native.String
use mathlib.Core.Option
use whisky_scrapper_node.Prelude.{
  ℕ, zero, suc, String, ◌+◌, ◌-◌, ◌*◌, Option, none, some, Bool, true, false, List, [], ◌∷◌, map,
  ◌==◌, ◌&&◌, all, length, if◌then◌else◌,
}
use whisky_scrapper_node.Hashes.{
  HashServer, Delivery, answered, lost_before, lost_after, Reply, not_array, array,
}
use whisky_scrapper_node.RateLimit.Bucket.{ceil_div}
use whisky_scrapper_node.LoginThrottle.Ladder.{
  attempts_per_stage, penalty_seconds, min_interval_ms, retention_sec,
}
use whisky_scrapper_node.LoginThrottle.Scripts.{attempt_script, failure_script}

pub record LoginThrottleStanding : Type 0 where
  pub limit : ℕ
  pub remaining : ℕ
  pub blocked_for_ms : ℕ

pub record LoginThrottleDecision : Type 0 where
  pub allowed : Bool
  pub retry_after_ms : ℕ
  pub standing : LoginThrottleStanding

abbrev is_number : Option ℕ → Bool
is_number none = false
is_number (some n) = true

abbrev unwrap : List (Option ℕ) → List ℕ
unwrap [] = []
unwrap (none ∷ values) = unwrap values
unwrap (some n ∷ values) = n ∷ unwrap values

unfoldable pub numbers : Reply → ℕ → Option (List ℕ)
numbers not_array n = none
numbers (array values) n =
    if length values == n && all is_number values then some (unwrap values) else none

unfoldable pub standing : ℕ → ℕ → LoginThrottleStanding
standing failures blocked_for_ms = record {
  limit = attempts_per_stage;
  remaining = attempts_per_stage - failures;
  blocked_for_ms = blocked_for_ms;
}

-- `const [allowed = 1, retryAfterMs = 0, failures = 0, blockedForMs = 0] = values`.
unfoldable pub decision_of : List ℕ → LoginThrottleDecision
decision_of (allowed ∷ retry ∷ failures ∷ blocked ∷ _) = record {
  allowed = allowed == 1;
  retry_after_ms = retry;
  standing = standing failures blocked;
}
decision_of (allowed ∷ retry ∷ failures ∷ []) = record {
  allowed = allowed == 1;
  retry_after_ms = retry;
  standing = standing failures 0;
}
decision_of (allowed ∷ retry ∷ []) = record {
  allowed = allowed == 1;
  retry_after_ms = retry;
  standing = standing 0 0;
}
decision_of (allowed ∷ []) = record {
  allowed = allowed == 1;
  retry_after_ms = 0;
  standing = standing 0 0;
}
decision_of [] = record { allowed = true; retry_after_ms = 0; standing = standing 0 0 }

unfoldable pub decision : Reply → Option LoginThrottleDecision
unfolding decision_of numbers
decision reply = Option.map decision_of (numbers reply 4)

-- `const [failures = 0, blockedForMs = 0] = values`.
unfoldable pub standing_of : List ℕ → LoginThrottleStanding
standing_of (failures ∷ blocked ∷ _) = standing failures blocked
standing_of (failures ∷ []) = standing failures 0
standing_of [] = standing 0 0

-- How `assertAllowed` ends: the standing if one is known, or `TooManyRequestsError` with the wait
-- in seconds and in milliseconds and the standing.
pub data Assertion : Type 0 where
  allowed : Option LoginThrottleStanding → Assertion
  too_many : ℕ → ℕ → LoginThrottleStanding → Assertion

unfoldable pub key : String → String
key address = String.◌++◌ "auth:throttle:ladder" (String.◌++◌ ":" address)

-- `guard`: what the driver hands back of a script's run, and the state; a script's error, a failed
-- call and a call past its deadline are all answered by `null`.
unfoldable pub guard {ℓ} : {S : Type ℓ} → Delivery → (S → Option (List ℕ) × S) → S → Reply × S
guard answered script s =
    let (reply, s') = script s in
    (elim reply [ none ↦ not_array | some values ↦ array (map some values) ], s')
guard lost_after script s = (not_array, (script s).1)
guard lost_before script s = (not_array, s)

-- The end of `assertAllowed`, from the decision.
unfoldable pub assertion : Option LoginThrottleDecision → Assertion
assertion none = allowed none
assertion (some d) =
    if d.allowed
    then allowed (some d.standing)
    else too_many (ceil_div d.retry_after_ms 1000) d.retry_after_ms d.standing

module _ (server : HashServer) where
  open server use {State, del}

  unfoldable pub assert_allowed : Delivery → ℕ → String → State → Assertion × State
  assert_allowed d now address s =
      let (reply, s') =
        guard d (attempt_script server now (key address) (min_interval_ms ∷ retention_sec ∷ []))
          s in
      (assertion (decision reply), s')

  unfoldable pub register_failure :
      Delivery → ℕ → String → State → Option LoginThrottleStanding × State
  register_failure d now address s =
      let (reply, s') =
        guard d
          (failure_script server now (key address)
            (attempts_per_stage ∷ retention_sec ∷ penalty_seconds))
          s in
      (Option.map standing_of (numbers reply 2), s')

  unfoldable pub reset : Delivery → String → State → State
  reset lost_before address s = s
  reset lost_after address s = del s (key address)
  reset answered address s = del s (key address)
