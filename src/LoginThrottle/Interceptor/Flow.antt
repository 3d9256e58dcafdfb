-- ===== src/LoginThrottle/Interceptor/Flow.antt =====
-- What one login request does to its caller's ladder.
use whisky_scrapper_node.Prelude.{
  ℕ, if◌then◌else◌, ◌==◌, String, ◌≡◌, ◌≢◌, refl, ◌⊎◌, inl, inr, Option, none, some, arith, ap,
}
use whisky_scrapper_node.Hashes.{HashServer, answered, lost_before}
use whisky_scrapper_node.RateLimit.Bucket.{ceil_div}
use whisky_scrapper_node.LoginThrottle.Ladder.Penalty.{attempt-cases}
use whisky_scrapper_node.LoginThrottle.Ladder.{
  LoginThrottleState, fresh, attempt, stamped, fail, attempts_per_stage, penalty_seconds,
  min_interval_ms,
}
use whisky_scrapper_node.LoginThrottle.Scripts.{read_ladder}
use whisky_scrapper_node.LoginThrottle.Service.{
  LoginThrottleStanding, standing, too_many, key, allowed, assert_allowed,
}
use whisky_scrapper_node.LoginThrottle.Service.Outcomes.{
  assert_allowed-answered, register_failure-answered, reset-fresh,
}
use whisky_scrapper_node.LoginThrottle.Interceptor.{
  Handled, answer, not_authenticated, other_error, handled, refused, Calls, after_handler,
  intercept,
}

-- The ladder after the handler: cleared by an answer, climbed by a wrong password, and left as it is
-- by any other error.
abbrev pub climbed : ℕ → Handled → LoginThrottleState → Option LoginThrottleState
climbed now answer l = some fresh
climbed now other_error l = some l
climbed now not_authenticated l = elim (fail now attempts_per_stage penalty_seconds l) [
  | none ↦ none
  | some (l', p) ↦ some l'
]

module _ (server : HashServer) (calls : Calls server) (address : String) (s : server.State) where
  after_handler-climbed :
      (handler : Handled) (s' : server.State)
      → calls.recorded ≡ answered
      → let out = after_handler server calls address handler s' in
        (out.ended ≡ handled handler)
        × (some (read_ladder server out.state (key address))
            ≡ climbed calls.recorded_at handler (read_ladder server s' (key address)))
  unfolding after_handler
  after_handler-climbed answer s' h =
      let reached : calls.recorded ≢ lost_before = ground arith in
      (refl, ap some (reset-fresh server calls.recorded_at address s' calls.recorded reached))
  after_handler-climbed not_authenticated s' h =
      let (l, p, climbs, _, left) = register_failure-answered server calls.recorded_at address s' in
      (refl, rw (h, climbs, climbed, left))
  after_handler-climbed other_error s' h = (refl, refl)

  intercept-allowed :
      (handler : Handled) (st : Option LoginThrottleStanding)
      → (assert_allowed server calls.checked calls.checked_at address s).0 ≡ allowed st
      → intercept server calls address handler s
        ≡ after_handler server calls address handler
            (assert_allowed server calls.checked calls.checked_at address s).1
  unfolding intercept
  intercept-allowed handler st h = rw (h, intercept)

  intercept-refused :
      (handler : Handled) (seconds wait : ℕ) (st : LoginThrottleStanding)
      → (assert_allowed server calls.checked calls.checked_at address s).0
        ≡ too_many seconds wait st
      → ((intercept server calls address handler s).ended ≡ refused seconds wait)
        × ((intercept server calls address handler s).state
            ≡ (assert_allowed server calls.checked calls.checked_at address s).1)
  unfolding intercept
  intercept-refused handler seconds wait st h = (rw (h, intercept), rw (h, intercept))

  -- Where both calls reach the server and are answered, a login request does one of two things. If
  -- the caller's ladder allows the attempt, the handler runs and its outcome is the request's; the
  -- ladder is stamped, and then cleared by an answer, climbed by a wrong password, and left alone by
  -- any other error. Otherwise the handler does not run: the request ends with the wait that the
  -- ladder gives, whatever the handler would have done, and the ladder stays as it was.
  pub intercept-climbed :
      (handler : Handled)
      → calls.checked ≡ answered
      → calls.recorded ≡ answered
      → let l = read_ladder server s (key address) in
        let a = attempt calls.checked_at min_interval_ms l in
        let out = intercept server calls address handler s in
        ((a.allowed ≡ 1)
          × (out.ended ≡ handled handler)
          × (some (read_ladder server out.state (key address))
              ≡ climbed calls.recorded_at handler (stamped calls.checked_at min_interval_ms l)))
        ⊎ ((a.allowed ≡ 0)
            × (out.ended ≡ refused (ceil_div a.retry_after_ms 1000) a.retry_after_ms)
            × (read_ladder server out.state (key address) ≡ l))
  unfolding stamped
  intercept-climbed handler checked recorded =
      let l = read_ladder server s (key address) in
      let (told, left) = checked_answered in
      let s' = (assert_allowed server calls.checked calls.checked_at address s).1 in
      elim (attempt-cases calls.checked_at min_interval_ms l) [
        | inl passes ↦
            let (ended, climbs) = after_handler-climbed handler s' recorded in
            let same = intercept-allowed handler _ (rw passes at told) in
            inl (passes, rw same ended, rw (same, ← left) climbs)
        | inr refuses ↦
            let (ended, kept) = intercept-refused handler _ _ _ (rw refuses at told) in
            inr (refuses, ended, rw (kept, left) (rw (refuses, stamped)))
      ]
    where
      checked_answered :
          let l = read_ladder server s (key address) in
          let a = attempt calls.checked_at min_interval_ms l in
          let (told, s') = assert_allowed server calls.checked calls.checked_at address s in
          (told ≡ (
            if a.allowed == 1
            then allowed (some (standing a.failures a.blocked_for))
            else too_many
                (ceil_div a.retry_after_ms 1000)
                a.retry_after_ms
                (standing a.failures a.blocked_for)))
          × (read_ladder server s' (key address) ≡ stamped calls.checked_at min_interval_ms l)
      checked_answered = rw checked (assert_allowed-answered server calls.checked_at address s)
