-- ===== src/LoginThrottle/Ladder/Guesses.antt =====
-- How long it takes to guess.
use whisky_scrapper_node.Prelude.{
  ℕ, zero, suc, ◌+◌, ◌*◌, ◌/◌, ◌≤◌, ◌<◌, ◌≡◌, refl, some, List, [], ◌∷◌, arith, length, ltb,
  if◌then◌else◌, Bool-cases, inl, inr, ltb-false→le, ltb→lt, ◌⊎◌, All,
}
use native.Mathlib.Nat.{div-eq_of_lt-le, add-zero}
use native.Mathlib.Numerals.{add-one}
use whisky_scrapper_node.LoginThrottle.Ladder.{LoginThrottleState, fresh, attempt, stamped, fail}
use whisky_scrapper_node.LoginThrottle.Ladder.Penalty.{attempt-allowed_iff}
use whisky_scrapper_node.LoginThrottle.Ladder.Climb.{rung, fail-rung, total, mul-suc_add}

-- The position that is found at a time: both scripts give the key the retention, in seconds, after
-- which the server forgets it.
abbrev pub found : ℕ → ℕ → LoginThrottleState → LoginThrottleState
found retention now l = if ltb now (l.last_attempt_at + retention * 1000) then l else fresh

-- Wrong guesses at the given times, each let through by the attempt script and then recorded by
-- the failure script, from one position to another.
pub data Guessed (interval retention per_stage : ℕ) (ladder : List ℕ)
    : LoginThrottleState → List ℕ → LoginThrottleState → Type 0 where
  done : {l : LoginThrottleState} → Guessed interval retention per_stage ladder l [] l
  guess :
      {l l' l'' : LoginThrottleState} {p : ℕ} (now : ℕ) {times : List ℕ}
      → (attempt now interval (found retention now l)).allowed ≡ 1
      → fail now per_stage ladder (stamped now interval (found retention now l)) ≡ some (l', p)
      → Guessed interval retention per_stage ladder l' times l''
      → Guessed interval retention per_stage ladder l (now ∷ times) l''

-- No time lies the retention or more behind the one before it.
abbrev pub Near : ℕ → ℕ → List ℕ → Type 0
Near retention now [] = Unit
Near retention now (t ∷ times) = (t < now + retention * 1000) × Near retention t times

-- The waits of the first stages together, in milliseconds.
pub waits : List ℕ → ℕ → ℕ
waits ladder zero = 0
waits ladder (suc stage) = waits ladder stage + rung ladder stage * 1000

-- The last of the times.
pub last : ℕ → List ℕ → ℕ
last now [] = now
last now (t ∷ times) = last t times

module _ (interval retention per_stage : ℕ) (ladder : List ℕ) (full : 0 < length ladder)
    (first : ℕ) where
  -- The waits of the stages climbed so far lie before the end of the penalty in force.
  record Holds (l : LoginThrottleState) : Type 0 where
    few : l.failures < per_stage
    late : (l.stage ≡ 0) ⊎ (first + waits ladder l.stage ≤ l.blocked_until)

  waits-le :
      (now : ℕ) (l : LoginThrottleState)
      → Holds l
      → first ≤ now
      → l.blocked_until ≤ now
      → first + waits ladder l.stage ≤ now
  unfolding waits
  waits-le now l h from free = elim h.late [
    | inl bottom ↦ rw bottom (omega arith)
    | inr late ↦ omega arith
  ]

  stamped_of_allowed :
      (now : ℕ) (l : LoginThrottleState)
      → (attempt now interval l).allowed ≡ 1
      → stamped now interval l ≡ record l { last_attempt_at = now }
  unfolding stamped
  stamped_of_allowed now l allowed = rw (allowed, stamped)

  fail-Holds :
      (now p : ℕ) (l l' : LoginThrottleState)
      → Holds l
      → first ≤ now
      → (attempt now interval l).allowed ≡ 1
      → fail now per_stage ladder (stamped now interval l) ≡ some (l', p)
      → Holds l'
        × (total per_stage l' ≡ total per_stage l + 1)
        × (first + waits ladder l.stage ≤ now)
        × (l'.last_attempt_at ≡ now)
  unfolding waits
  fail-Holds now p l l' h from allowed failed =
      let free = (attempt-allowed_iff now interval l).0 allowed in
      let waited = waits-le now l h from free.0 in
      let at : fail now per_stage ladder (record l { last_attempt_at = now }) ≡ some (l', p) =
        rw (stamped_of_allowed now l allowed) at failed in
      let same = fail-rung now per_stage ladder (record l { last_attempt_at = now }) full in
      elim (Bool-cases (ltb (l.failures + 1) per_stage)) [
        | inl more ↦
            let is : l' ≡ record l { failures = l.failures + 1; last_attempt_at = now } =
              ground (arith, at, same) in
            rw is (record { few = ltb→lt _ _ more; late = h.late }, omega arith, waited, refl)
        | inr fills ↦
            let is : l' ≡ record {
              failures = 0;
              stage = l.stage + 1;
              blocked_until = now + rung ladder l.stage * 1000;
              last_attempt_at = now;
            } =
              ground (arith, at, same) in
            rw is (
              record { few = omega arith; late = inr (rw add-one (omega (arith, waited))) },
              omega (arith, mul-suc_add l.stage per_stage, ltb-false→le _ _ fills),
              waited,
              refl,
            )
      ]

  stage_of_total :
      (l : LoginThrottleState) → l.failures < per_stage → total per_stage l / per_stage ≡ l.stage
  stage_of_total l h =
      div-eq_of_lt-le per_stage (omega arith) (omega (arith, mul-suc_add l.stage per_stage))

  Guessed-waits :
      {l l' : LoginThrottleState} (now : ℕ) (times : List ℕ)
      → Guessed interval retention per_stage ladder l (now ∷ times) l'
      → All (λ t. first ≤ t) (now ∷ times)
      → Near retention now times
      → Holds l
      → found retention now l ≡ l
      → first + waits ladder ((total per_stage l + length times) / per_stage) ≤ last now times
  unfolding last
  Guessed-waits {l} now [] (guess _ allowed failed done) (from, _) near h there =
      let (_, _, waited, _) =
        fail-Holds now _ l _ h from (rw there at allowed) (rw there at failed) in
      let same : (total per_stage l + 0) / per_stage ≡ l.stage =
        rw add-zero (stage_of_total l h.few) in
      rw same waited
  Guessed-waits {l} now (t ∷ times) (guess {l' = m} _ allowed failed rest) (from, later) near h
        there =
      let (h', counted, _, at) =
        fail-Holds now _ l m h from (rw there at allowed) (rw there at failed) in
      let same : total per_stage l + suc (length times) ≡ total per_stage m + length times =
        omega (arith, counted) in
      let next : found retention t m ≡ m = ground (arith, at, near.0) in
      rw same (Guessed-waits t times rest later near.1 h' next)

-- A caller whose guesses are all wrong and all let through, each within the retention of the one
-- before it, has, by the last of them, waited out the penalty of every run that the earlier guesses
-- filled: from a fresh ladder the last guess comes no earlier than the first time and those
-- penalties together (where no guess comes before that time, the runs are not empty and the ladder
-- has a rung).
pub Guessed-takes :
    (interval retention per_stage : ℕ) (ladder : List ℕ) (first : ℕ) (times : List ℕ)
    (l : LoginThrottleState)
    → 0 < length ladder
    → 0 < per_stage
    → Guessed interval retention per_stage ladder fresh (first ∷ times) l
    → All (λ t. first ≤ t) times
    → Near retention first times
    → first + waits ladder (length times / per_stage) ≤ last first times
Guessed-takes interval retention per_stage ladder first times l full pos g later near =
    let counted : 0 * per_stage + 0 + length times ≡ length times = omega arith in
    let there : found retention first fresh ≡ fresh = ground arith in
    rw counted at (
      Guessed-waits interval retention per_stage ladder full first first times g
        (omega arith, later) near (record { few = pos; late = inl refl }) there)
