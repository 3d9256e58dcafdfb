-- ===== src/LoginThrottle/Ladder/Penalty.antt =====
-- When an attempt is allowed.
use whisky_scrapper_node.Prelude.{ℕ, ◌+◌, ◌≤◌, ◌<◌, ◌≡◌, ◌↔◌, ◌⊎◌, arith}
use whisky_scrapper_node.LoginThrottle.Ladder.{LoginThrottleState, attempt}

-- An attempt is allowed exactly when no penalty is in force and the last stamp is not less than
-- the interval ago (or lies in the future).
pub attempt-allowed_iff :
    (now interval : ℕ) (l : LoginThrottleState)
    → ((attempt now interval l).allowed ≡ 1) ↔ (
        (l.blocked_until ≤ now)
        × ((now < l.last_attempt_at) ⊎ (l.last_attempt_at + interval ≤ now)))
unfolding attempt
attempt-allowed_iff now interval l = ground arith

-- The wait that a refused attempt states is exact: a later attempt, with nothing recorded between
-- the two, is allowed exactly when the wait has passed (where a penalty in force ends no earlier
-- than the spacing rule does, which holds of the penalties of the ladder).
pub attempt_wait :
    (now later interval : ℕ) (l : LoginThrottleState)
    → (attempt now interval l).allowed ≡ 0
    → now ≤ later
    → (l.blocked_until ≤ now) ⊎ (l.last_attempt_at + interval ≤ l.blocked_until)
    → ((attempt later interval l).allowed ≡ 1)
      ↔ (now + (attempt now interval l).retry_after_ms ≤ later)
unfolding attempt
attempt_wait now later interval l h le ord = ground arith

pub attempt-cases :
    (now interval : ℕ) (l : LoginThrottleState)
    → ((attempt now interval l).allowed ≡ 1) ⊎ ((attempt now interval l).allowed ≡ 0)
unfolding attempt
attempt-cases now interval l = ground arith
