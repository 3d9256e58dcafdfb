-- ===== src/LoginThrottle/Interceptor.antt =====
-- The interceptor around the login handler (domain/auth/interceptors/auth-throttle.interceptor.ts):
-- it refuses before the handler runs and records the outcome after.
pub mod Flow
use whisky_scrapper_node.Prelude.{
  ℕ, zero, suc, String, ◌+◌, ◌-◌, ◌*◌, Option, none, some, Bool, true, false, List, [], ◌∷◌, leb,
  ltb, length, if◌then◌else◌,
}
use whisky_scrapper_node.Hashes.{HashServer, Delivery}
use whisky_scrapper_node.LoginThrottle.Ladder.{penalty_seconds}
use whisky_scrapper_node.LoginThrottle.Service.{
  LoginThrottleStanding, Assertion, allowed, too_many, assert_allowed, register_failure, reset,
}

-- What the handler does: it answers, throws `NotAuthenticatedError` (the password was wrong), or
-- throws another error, which is no refusal of the throttle.
pub data Handled : Type 0 where
  answer not_authenticated other_error : Handled

-- How the intercepted request ends.
pub data Ended : Type 0 where
  handled : Handled → Ended
  refused : ℕ → ℕ → Ended

-- What is counted.
pub data LoginMetric : Type 0 where
  success throttled failed : LoginMetric
  penalty : ℕ → LoginMetric

pub record StandingHeaders : Type 0 where
  pub attempts : ℕ
  pub attempts_remaining : ℕ
  pub retry_ms : Option ℕ

unfoldable pub describe : Option LoginThrottleStanding → Option StandingHeaders
describe none = none
describe (some st) = some (record {
  attempts = st.limit;
  attempts_remaining = st.remaining;
  retry_ms = if ltb 0 st.blocked_for_ms then some st.blocked_for_ms else none;
})

-- `LOGIN_PENALTY_SECONDS.findIndex(seconds => seconds * 1000 >= blockedForMs)`, from an index on;
-- where there is none, the last index.
unfoldable pub stage_from : ℕ → ℕ → List ℕ → ℕ
stage_from blocked index [] = index - 1
stage_from blocked index (seconds ∷ ladder) =
    if leb blocked (seconds * 1000) then index else stage_from blocked (suc index) ladder

unfoldable pub count_penalty : Option LoginThrottleStanding → List LoginMetric
count_penalty none = []
count_penalty (some st) =
    if ltb 0 st.blocked_for_ms
    then penalty (stage_from st.blocked_for_ms 0 penalty_seconds) ∷ []
    else []

module _ (server : HashServer) where
  open server use {State}

  pub record Intercepted : Type 0 where
    pub ended : Ended
    pub metrics : List LoginMetric
    pub headers : Option StandingHeaders
    pub state : State

  -- The times and the fates of the two calls that a request may make.
  pub record Calls : Type 0 where
    pub checked : Delivery
    pub checked_at : ℕ
    pub recorded : Delivery
    pub recorded_at : ℕ

  -- `onSuccess` and `onFailure`, after the handler has run.
  unfoldable pub after_handler : Calls → String → Handled → State → Intercepted
  after_handler calls address answer s = record {
    ended = handled answer;
    metrics = success ∷ [];
    headers = none;
    state = reset server calls.recorded address s;
  }
  after_handler calls address not_authenticated s =
      let (standing, s') = register_failure server calls.recorded calls.recorded_at address s in
      record {
        ended = handled not_authenticated;
        metrics = failed ∷ count_penalty standing;
        headers = describe standing;
        state = s';
      }
  after_handler calls address other_error s = record {
    ended = handled other_error;
    metrics = [];
    headers = none;
    state = s;
  }

  -- `intercept`: the handler runs only if the check lets it.
  unfoldable pub intercept : Calls → String → Handled → State → Intercepted
  intercept calls address handler s =
      let (told, s') = assert_allowed server calls.checked calls.checked_at address s in
      elim told [
        | allowed standing ↦ after_handler calls address handler s'
        | too_many seconds wait standing ↦ record {
          ended = refused seconds wait;
          metrics = throttled ∷ [];
          headers = describe (some standing);
          state = s';
        }
      ]
