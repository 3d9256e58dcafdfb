-- ===== src/LoginThrottle/Tests.antt =====
-- The login throttle on concrete callers.
use whisky_scrapper_node.Prelude.{
  ℕ, ◌+◌, ◌/◌, ◌≤◌, ◌≡◌, ◌≢◌, String, ◌⊎◌, refl, some, List, [], ◌∷◌, arith,
}
use whisky_scrapper_node.Hashes.{table_server, empty_table, answered}
use whisky_scrapper_node.RateLimit.Bucket.{ceil_div}
use whisky_scrapper_node.LoginThrottle.Ladder.{
  fresh, attempt, stamped, fail, penalty, penalty_seconds, min_interval_ms,
}
use whisky_scrapper_node.LoginThrottle.Ladder.Climb.{fails}
use whisky_scrapper_node.LoginThrottle.Ladder.Guesses.{done, guess, waits, last, Guessed-takes}
use whisky_scrapper_node.LoginThrottle.Scripts.{read_ladder, attempt_script}
use whisky_scrapper_node.LoginThrottle.Scripts.Refine.{attempt_script-attempt}
use whisky_scrapper_node.LoginThrottle.Service.{key}
use whisky_scrapper_node.LoginThrottle.Interceptor.{
  Calls, intercept, not_authenticated, handled, refused,
}
use whisky_scrapper_node.LoginThrottle.Interceptor.Flow.{climbed, intercept-climbed}

abbrev six_times : List ℕ
six_times = 1 ∷ 2 ∷ 3 ∷ 4 ∷ 5 ∷ 6 ∷ []

six_failures :
    fails 5 penalty_seconds six_times (fresh, 0)
    ≡ some (record { failures = 1; stage = 1; blocked_until = 5005; last_attempt_at = 6 }, 0)
unfolding fails fail penalty
six_failures = refl

-- Runs of one guess, and one rung of two seconds.
Guessed-takes_example : 5000 + waits (2 ∷ []) (1 / 1) ≤ last 5000 (7000 ∷ [])
unfolding attempt stamped fail penalty
Guessed-takes_example =
    Guessed-takes 1000 7200 1 (2 ∷ []) 5000 (7000 ∷ [])
      (record { failures = 0; stage = 2; blocked_until = 9000; last_attempt_at = 7000 })
      (omega arith) (omega arith) (guess 5000 refl refl (guess 7000 refl refl done)) (omega arith)
      (omega arith)

attempt_script-attempt_example :
    let a = attempt 50 1000 (read_ladder table_server empty_table "k") in
    let (reply, s') = attempt_script table_server 50 "k" (1000 ∷ 7200 ∷ []) empty_table in
    (reply ≡ some (a.allowed ∷ a.retry_after_ms ∷ a.failures ∷ a.blocked_for ∷ []))
    × (read_ladder table_server s' "k" ≡ stamped 50 1000 (read_ladder table_server empty_table "k"))
    × ((key' : String)
        → "k" ≢ key'
        → read_ladder table_server s' key' ≡ read_ladder table_server empty_table key')
attempt_script-attempt_example = attempt_script-attempt table_server 50 1000 7200 "k" empty_table

abbrev calls : Calls table_server
calls = record { checked = answered; checked_at = 5000; recorded = answered; recorded_at = 5100 }

intercept-climbed_example :
    let l = read_ladder table_server empty_table (key "10.0.0.1") in
    let a = attempt 5000 min_interval_ms l in
    let out = intercept table_server calls "10.0.0.1" not_authenticated empty_table in
    ((a.allowed ≡ 1)
      × (out.ended ≡ handled not_authenticated)
      × (some (read_ladder table_server out.state (key "10.0.0.1"))
          ≡ climbed 5100 not_authenticated (stamped 5000 min_interval_ms l)))
    ⊎ ((a.allowed ≡ 0)
        × (out.ended ≡ refused (ceil_div a.retry_after_ms 1000) a.retry_after_ms)
        × (read_ladder table_server out.state (key "10.0.0.1") ≡ l))
intercept-climbed_example =
    intercept-climbed table_server calls "10.0.0.1" empty_table not_authenticated refl refl
