-- ===== src/LoginThrottle/Service/Outcomes.antt =====
-- What the login route is told, in terms of the caller's ladder.
use whisky_scrapper_node.Prelude.{
  ℕ, String, ◌≡◌, ◌≢◌, refl, Option, none, some, List, map, arith, inl, inr, if◌then◌else◌, ◌==◌,
}
use whisky_scrapper_node.Hashes.{HashServer, Delivery, answered, lost_before, lost_after, array}
use whisky_scrapper_node.RateLimit.Bucket.{ceil_div}
use whisky_scrapper_node.LoginThrottle.Ladder.{
  LoginThrottleState, fresh, attempt, stamped, fail, attempts_per_stage, penalty_seconds,
  min_interval_ms, retention_sec,
}
use whisky_scrapper_node.LoginThrottle.Ladder.Climb.{fail-ne-none}
use whisky_scrapper_node.LoginThrottle.Scripts.{read_ladder, attempt_script, failure_script}
use whisky_scrapper_node.LoginThrottle.Scripts.Refine.{attempt_script-attempt, failure_script-fail}
use whisky_scrapper_node.LoginThrottle.Service.{
  allowed, too_many, standing, key, guard, numbers, standing_of, decision, assertion,
  assert_allowed, register_failure, reset,
}

guard-answered :
    {S : Type 0} (script : S → Option (List ℕ) × S) (s : S) (values : List ℕ)
    → (script s).0 ≡ some values
    → (guard answered script s).0 ≡ array (map some values)
unfolding guard
guard-answered script s values h = rw h

module _ (server : HashServer) (now : ℕ) (address : String) (s : server.State) where
  -- When the script answers, the route is told what the caller's ladder says: the standing of an
  -- allowed attempt, or the wait of a refused one in seconds and in milliseconds; and the ladder is
  -- left as the attempt leaves it.
  pub assert_allowed-answered :
      let l = read_ladder server s (key address) in
      let a = attempt now min_interval_ms l in
      let (told, s') = assert_allowed server answered now address s in
      (told ≡ (
        if a.allowed == 1
        then allowed (some (standing a.failures a.blocked_for))
        else too_many
            (ceil_div a.retry_after_ms 1000)
            a.retry_after_ms
            (standing a.failures a.blocked_for)))
      × (read_ladder server s' (key address) ≡ stamped now min_interval_ms l)
  unfolding assert_allowed
  assert_allowed-answered =
      let (reply, left, _) =
        attempt_script-attempt server now min_interval_ms retention_sec (key address) s in
      (
        rw (guard-answered (attempt_script server now (key address) _) s _ reply)
            (unfold decision assertion in refl),
        unfold guard in left,
      )

  -- When a call fails or times out, the attempt proceeds and nothing is stated.
  pub assert_allowed-lost :
      (d : Delivery)
      → d ≢ answered
      → ((assert_allowed server d now address s).0 ≡ allowed none)
        × ((register_failure server d now address s).0 ≡ none)
  unfolding assert_allowed register_failure guard decision numbers assertion
  assert_allowed-lost answered h = absurd (h refl)
  assert_allowed-lost lost_before h = (refl, refl)
  assert_allowed-lost lost_after h = (refl, refl)

  -- When the script answers, a recorded failure states the failures and the penalty that the
  -- caller's ladder gives, and leaves that ladder as the failure leaves it.
  pub register_failure-answered :
      (l : LoginThrottleState) × (p : ℕ) × (fail now attempts_per_stage penalty_seconds
          (read_ladder server s (key address))
        ≡ some (l, p))
      × ((register_failure server answered now address s).0 ≡ some (standing l.failures p))
      × (read_ladder server (register_failure server answered now address s).1 (key address) ≡ l)
  unfolding register_failure
  register_failure-answered =
      elim (failure_script-fail server now attempts_per_stage retention_sec penalty_seconds
        (key address) s) [
          | inl (l, p, failed, reply, left) ↦ (
            l,
            p,
            failed,
            rw (guard-answered (failure_script server now (key address) _) s _ reply)
                (unfold numbers standing_of in refl),
            unfold guard in left,
          )
          | inr (failed, _, _) ↦
              absurd (fail-ne-none now attempts_per_stage penalty_seconds _ (omega arith) failed)
        ]

  -- A successful login that reaches the server clears the caller's ladder.
  pub reset-fresh :
      (d : Delivery)
      → d ≢ lost_before
      → read_ladder server (reset server d address s) (key address) ≡ fresh
  unfolding reset read_ladder
  reset-fresh lost_before h = absurd (h refl)
  reset-fresh lost_after h = simp (server.hget-del_self)
  reset-fresh answered h = simp (server.hget-del_self)
