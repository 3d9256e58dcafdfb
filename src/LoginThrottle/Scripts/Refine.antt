-- ===== src/LoginThrottle/Scripts/Refine.antt =====
-- The scripts do on the server's hashes what the ladder does on its state.
use whisky_scrapper_node.Prelude.{
  ℕ, String, ◌+◌, ◌*◌, ◌≡◌, ◌≢◌, ◌∙◌, refl, none, some, List, [], ◌∷◌, ltb, ◌⊎◌, inl, inr,
  Bool-cases, Option-cases,
}
use whisky_scrapper_node.Hashes.{HashServer, hget-hset}
use whisky_scrapper_node.LoginThrottle.Ladder.{
  LoginThrottleState, attempt, stamped, blocked_for, too_soon, fail, penalty,
}
use whisky_scrapper_node.LoginThrottle.Scripts.{read_ladder, attempt_script, failure_script}

module _ (server : HashServer) where
  open server use {State, hget, hset, pexpire, hget-hset_self, hget-hset_ne, hget-pexpire}

  read_stamped :
      (now ms : ℕ) (key : String) (s : State)
      → read_ladder server (pexpire (hset s key "lastAttemptAt" now) key ms) key
        ≡ record (read_ladder server s key) { last_attempt_at = now }
  unfolding read_ladder
  read_stamped now ms key s = simp (hget-pexpire, hget-hset server)

  read_elsewhere :
      (now ms : ℕ) (key key' : String) (s : State)
      → key ≢ key'
      → read_ladder server (pexpire (hset s key "lastAttemptAt" now) key ms) key'
        ≡ read_ladder server s key'
  unfolding read_ladder
  read_elsewhere now ms key key' s other =
      let same = λ (f : String).
        hget-pexpire (hset s key "lastAttemptAt" now) key ms key' f
        ∙ hget-hset_ne s key "lastAttemptAt" key' f now (inl other) in
      rw (same "failures", same "stage", same "blockedUntil", same "lastAttemptAt") refl

  -- The attempt script answers the four integers that its caller's ladder gives, and leaves that
  -- ladder as the attempt leaves it: as it was where the attempt is refused. The ladder of another
  -- caller stays as it was.
  pub attempt_script-attempt :
      (now interval retention : ℕ) (key : String) (s : State)
      → let a = attempt now interval (read_ladder server s key) in
        let (reply, s') = attempt_script server now key (interval ∷ retention ∷ []) s in
        (reply ≡ some (a.allowed ∷ a.retry_after_ms ∷ a.failures ∷ a.blocked_for ∷ []))
        × (read_ladder server s' key ≡ stamped now interval (read_ladder server s key))
        × ((key' : String) → key ≢ key' → read_ladder server s' key' ≡ read_ladder server s key')
  unfolding attempt_script attempt stamped read_ladder
  attempt_script-attempt now interval retention key s =
      let l = read_ladder server s key in
      elim (Bool-cases (ltb 0 (blocked_for now l))) [
        | inl blocked ↦
            rw (blocked, attempt, stamped, attempt_script) (refl, refl, λ key' other. refl)
        | inr free ↦ elim (Bool-cases (too_soon now interval l)) [
          | inl soon ↦
              rw (free, soon, attempt, stamped, attempt_script) (refl, refl, λ key' other. refl)
          | inr late ↦
              rw (free, late, attempt, stamped, attempt_script)
                (
                  refl,
                  read_stamped now (retention * 1000) key s,
                  λ key' other. read_elsewhere now (retention * 1000) key key' s other,
                )
        ]
      ]

  read_counted :
      (n now ms : ℕ) (key : String) (s : State)
      → read_ladder server
          (pexpire (hset (hset s key "failures" n) key "lastAttemptAt" now) key ms)
          key
        ≡ record (read_ladder server s key) { failures = n; last_attempt_at = now }
  unfolding read_ladder
  read_counted n now ms key s = simp (hget-pexpire, hget-hset server)

  read_blocked :
      (stage until now ms : ℕ) (key : String) (s : State)
      → let s₁ = hset s key "failures" 0 in
        let s₂ = hset s₁ key "stage" stage in
        let s₃ = hset s₂ key "blockedUntil" until in
        let s₄ = hset s₃ key "lastAttemptAt" now in
        read_ladder server (pexpire s₄ key ms) key
        ≡ record { failures = 0; stage = stage; blocked_until = until; last_attempt_at = now }
  unfolding read_ladder
  read_blocked stage until now ms key s = simp (hget-pexpire, hget-hset server)

  pub failure_script-fail :
      (now per_stage retention : ℕ) (ladder : List ℕ) (key : String) (s : State)
      → let (reply, s') = failure_script server now key (per_stage ∷ retention ∷ ladder) s in
        ((l : LoginThrottleState) × (p : ℕ) × (fail now per_stage ladder (read_ladder server s key)
            ≡ some (l, p))
          × (reply ≡ some (l.failures ∷ p ∷ []))
          × (read_ladder server s' key ≡ l))
        ⊎ ((fail now per_stage ladder (read_ladder server s key) ≡ none)
            × (reply ≡ none)
            × (s' ≡ s))
  unfolding failure_script fail
  failure_script-fail now per_stage retention ladder key s =
      let l = read_ladder server s key in
      elim (Bool-cases (ltb (l.failures + 1) per_stage)) [
        | inl more ↦ inl (
          record l { failures = l.failures + 1; last_attempt_at = now },
          0,
          rw (more, fail),
          rw (more, failure_script),
          rw (more, failure_script) (read_counted (l.failures + 1) now (retention * 1000) key s),
        )
        | inr done ↦ elim (Option-cases (penalty ladder l.stage)) [
          | inl missing ↦ inr (
            rw (done, missing, fail),
            rw (done, missing, failure_script),
            rw (done, missing, failure_script),
          )
          | inr (seconds, found) ↦ inl (
            record {
              failures = 0;
              stage = l.stage + 1;
              blocked_until = now + seconds * 1000;
              last_attempt_at = now;
            },
            seconds * 1000,
            rw (done, found, fail),
            rw (done, found, failure_script),
            rw (done, found, failure_script)
                (read_blocked (l.stage + 1) (now + seconds * 1000) now (retention * 1000) key s),
          )
        ]
      ]
