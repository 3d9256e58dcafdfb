-- ===== src/LoginThrottle/Ladder/Climb.antt =====
-- How the ladder climbs.
use whisky_scrapper_node.Prelude.{
  ℕ, zero, suc, ◌+◌, ◌-◌, ◌*◌, ◌/◌, ◌%◌, ◌<◌, ◌≡◌, ◌≢◌, refl, Option, none, some, List, [], ◌∷◌,
  arith, length, get_elem?, min, ltb, if◌then◌else◌, Bool-cases, inl, inr, ltb→lt, ltb-false→le, ap,
  sym,
}
use native.Mathlib.Nat.{div-eq_of_lt-le, div-add-mod'}
use whisky_scrapper_node.LoginThrottle.Ladder.{LoginThrottleState, fresh, fail, penalty}

-- Failures one after another, at the given times: the position after them, and the penalty that the
-- last of them imposed.
unfoldable pub fails :
    ℕ → List ℕ → List ℕ → LoginThrottleState × ℕ → Option (LoginThrottleState × ℕ)
fails per_stage ladder [] r = some r
fails per_stage ladder (now ∷ times) (l, _) = elim (fail now per_stage ladder l) [
  | none ↦ none
  | some r ↦ fails per_stage ladder times r
]

get_elem?-some : (xs : List ℕ) (i : ℕ) → i < length xs → (a : ℕ) × (get_elem? xs i ≡ some a)
get_elem?-some [] i h = absurd (omega arith)
get_elem?-some (x ∷ xs) zero h = (x, refl)
get_elem?-some (x ∷ xs) (suc i) h = get_elem?-some xs i (omega arith)

-- The penalty of a stage in seconds: the ladder's rung of that number, from 0, or its last rung.
abbrev pub rung : List ℕ → ℕ → ℕ
rung ladder stage = elim (penalty ladder stage) [ none ↦ 0 | some seconds ↦ seconds ]

pub penalty-rung :
    (ladder : List ℕ) (stage : ℕ)
    → 0 < length ladder
    → penalty ladder stage ≡ some (rung ladder stage)
unfolding penalty
penalty-rung ladder stage h =
    let (seconds, e) = get_elem?-some ladder (min (stage + 1) (length ladder) - 1) (omega arith) in
    rw (e, rung)

-- One failure inside a run, and the one that ends it.
pub fail-rung :
    (now per_stage : ℕ) (ladder : List ℕ) (l : LoginThrottleState)
    → 0 < length ladder
    → fail now per_stage ladder l ≡ (
        if ltb (l.failures + 1) per_stage
        then some (record l { failures = l.failures + 1; last_attempt_at = now }, 0)
        else some (
          record {
            failures = 0;
            stage = l.stage + 1;
            blocked_until = now + rung ladder l.stage * 1000;
            last_attempt_at = now;
          },
          rung ladder l.stage * 1000,
        ))
unfolding fail
fail-rung now per_stage ladder l h = rw (penalty-rung ladder l.stage h)

pub fail-ne-none :
    (now per_stage : ℕ) (ladder : List ℕ) (l : LoginThrottleState)
    → 0 < length ladder
    → fail now per_stage ladder l ≢ none
fail-ne-none now per_stage ladder l h = ground (arith, fail-rung now per_stage ladder l h)

pub mul-suc_add : (stage per : ℕ) → (stage + 1) * per ≡ stage * per + per
mul-suc_add stage per = omega arith

-- The total of failures that a position stands for, in runs of a given length.
abbrev pub total : ℕ → LoginThrottleState → ℕ
total per_stage l = l.stage * per_stage + l.failures

fail-total :
    (now per_stage : ℕ) (ladder : List ℕ) (l : LoginThrottleState)
    → 0 < length ladder
    → l.failures < per_stage
    → (r : LoginThrottleState × ℕ) × (fail now per_stage ladder l ≡ some r)
      × (r.0.failures < per_stage)
      × (total per_stage r.0 ≡ total per_stage l + 1)
fail-total now per_stage ladder l full h = elim (Bool-cases (ltb (l.failures + 1) per_stage)) [
  | inl more ↦ (
    (record l { failures = l.failures + 1; last_attempt_at = now }, 0),
    rw (fail-rung now per_stage ladder l full, more),
    ltb→lt _ _ more,
    omega arith,
  )
  | inr done ↦ (
    (
      record {
        failures = 0;
        stage = l.stage + 1;
        blocked_until = now + rung ladder l.stage * 1000;
        last_attempt_at = now;
      },
      rung ladder l.stage * 1000,
    ),
    rw (fail-rung now per_stage ladder l full, done),
    omega arith,
    omega (arith, mul-suc_add l.stage per_stage, ltb-false→le _ _ done),
  )
]

fails-total :
    (per_stage : ℕ) (ladder times : List ℕ) (l : LoginThrottleState) (p : ℕ)
    → l.failures < per_stage
    → 0 < length ladder
    → (r : LoginThrottleState × ℕ) × (fails per_stage ladder times (l, p) ≡ some r)
      × (r.0.failures < per_stage)
      × (total per_stage r.0 ≡ total per_stage l + length times)
unfolding fails
fails-total per_stage ladder [] l p h full = ((l, p), refl, h, omega arith)
fails-total per_stage ladder (now ∷ times) l p h full =
    let (r, failed, few, counted) = fail-total now per_stage ladder l full h in
    let (r', rest, few', counted') = fails-total per_stage ladder times r.0 r.1 few full in
    (r', rw (failed, fails) rest, few', omega (arith, counted, counted'))

-- After any number of failures from nothing, at whatever times, the stage is the number of full
-- runs among them and the failures of the current run are the rest; and one failure more imposes a
-- penalty exactly when it fills a run: the rung of that stage, in milliseconds from that failure.
pub fails-fresh :
    (per_stage : ℕ) (ladder times : List ℕ) (now : ℕ)
    → 0 < per_stage
    → 0 < length ladder
    → (r : LoginThrottleState × ℕ) × (fails per_stage ladder times (fresh, 0) ≡ some r)
      × (r.0.stage ≡ length times / per_stage)
      × (r.0.failures ≡ length times % per_stage)
      × (fail now per_stage ladder r.0 ≡ (
          if ltb (length times % per_stage + 1) per_stage
          then some
              (record r.0 { failures = length times % per_stage + 1; last_attempt_at = now }, 0)
          else some (
            record {
              failures = 0;
              stage = length times / per_stage + 1;
              blocked_until = now + rung ladder (length times / per_stage) * 1000;
              last_attempt_at = now;
            },
            rung ladder (length times / per_stage) * 1000,
          )))
fails-fresh per_stage ladder times now pos full =
    let (r, failed, few, counted) = fails-total per_stage ladder times fresh 0 pos full in
    let stage : length times / per_stage ≡ r.0.stage =
      div-eq_of_lt-le per_stage (omega (arith, counted))
        (omega (arith, counted, mul-suc_add r.0.stage per_stage)) in
    let left : length times % per_stage ≡ r.0.failures = omega (
      arith,
      counted,
      stage,
      div-add-mod' (length times) per_stage,
      ap (λ (n : ℕ). n * per_stage) stage,
    ) in
    (r, failed, sym stage, sym left, rw (stage, left, fail-rung now per_stage ladder r.0 full))
