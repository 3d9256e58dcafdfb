-- ===== src/RateLimit/Store/Failures.antt =====
-- Every failure of the limiter is accounted for in its log lines.
use whisky_scrapper_node.Prelude.{ℕ, suc, ◌+◌, ◌≡◌, none, List, [], ◌∷◌, arith, length}
use whisky_scrapper_node.RateLimit.Store.{Limiter, record_failure}

-- The failures that the lines stand for.
pub stated : List ℕ → ℕ
stated [] = 0
stated (n ∷ lines) = suc n + stated lines

-- Failures one after another, at the given times.
pub failures : List ℕ → Limiter → Limiter
failures [] l = l
failures (now ∷ later) l = failures later (record_failure now l)

abbrev pub fresh : Limiter
fresh = record { suppressed = 0; last_failure_log_at = none; logged = [] }

record_failure-stated :
    (now : ℕ) (l : Limiter)
    → stated (record_failure now l).logged + (record_failure now l).suppressed
      ≡ suc (stated l.logged + l.suppressed)
unfolding record_failure stated
record_failure-stated now l = ground arith

failures-stated_from :
    (times : List ℕ) (l : Limiter)
    → stated (failures times l).logged + (failures times l).suppressed
      ≡ length times + (stated l.logged + l.suppressed)
unfolding failures
failures-stated_from [] l = omega arith
failures-stated_from (now ∷ times) l =
    omega (arith, failures-stated_from times (record_failure now l), record_failure-stated now l)

-- From a fresh store, the failures that the logged lines state and those still suppressed are
-- together all the failures there were: none is lost and none is reported twice.
pub failures-stated :
    (times : List ℕ)
    → stated (failures times fresh).logged + (failures times fresh).suppressed ≡ length times
unfolding stated
failures-stated times = omega (arith, failures-stated_from times fresh)
