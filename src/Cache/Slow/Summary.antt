-- ===== src/Cache/Slow/Summary.antt =====
-- What the summaries of slow commands say.
use native.Mathlib.Nat.{div-lt_iff_lt-mul, mul-le-mul_left}
use text.Mathlib.Text.{◌==◌ as str_eq}
use whisky_scrapper_node.Prelude.{
  ℕ, ◌+◌, ◌*◌, ◌≤◌, ◌<◌, min, max, String, ◌≡◌, ◌≢◌, ◌⊎◌, refl, ap, Option, none, some, Bool, true,
  false, List, [], ◌∷◌, map, length, All, arith, Bool-cases, inl, inr,
}
use whisky_scrapper_node.Cache.Slow.{
  SlowCommandSample, SummaryLine, SlowLog, SlowCommand, summary_line, sampled, add_sample,
  flush_slow, record_slow, record_each, on_module_destroy, rounded, no_slow_commands, or_else,
}

abbrev pub counted : List SummaryLine → ℕ
counted [] = 0
counted (l ∷ lines) = l.count + counted lines

-- How many commands all the summaries count.
abbrev pub stated : List (List SummaryLine) → ℕ
stated [] = 0
stated (lines ∷ logged) = counted lines + stated logged

-- How many commands wait for the next summary.
abbrev pub waiting : List SlowCommandSample → ℕ
waiting [] = 0
waiting (s ∷ samples) = s.count + waiting samples

counted-map :
    (samples : List SlowCommandSample) → counted (map summary_line samples) ≡ waiting samples
unfolding summary_line
counted-map [] = refl
counted-map (s ∷ samples) = ap (λ n. s.count + n) (counted-map samples)

waiting-add_sample :
    (operation : String) (elapsed : ℕ) (samples : List SlowCommandSample)
    → waiting (add_sample operation elapsed samples) ≡ waiting samples + 1
unfolding add_sample sampled
waiting-add_sample operation elapsed [] = refl
waiting-add_sample operation elapsed (s ∷ samples) =
    ground (arith, waiting-add_sample operation elapsed samples)

flush_slow-counts :
    (force : Bool) (now : ℕ) (log : SlowLog)
    → stated (flush_slow force now log).logged + waiting (flush_slow force now log).samples
      ≡ stated log.logged + waiting log.samples
unfolding flush_slow
flush_slow-counts force now log = ground (arith, counted-map log.samples)

record_each-counts :
    (commands : List SlowCommand) (log : SlowLog)
    → let log' = record_each commands log in
      stated log'.logged + waiting log'.samples
      ≡ stated log.logged + waiting log.samples + length commands
unfolding record_each record_slow
record_each-counts [] log = omega arith
record_each-counts (c ∷ commands) log = omega (
  arith,
  record_each-counts commands (record_slow c.operation c.elapsed c.now log),
  flush_slow-counts false c.now (record log {
    samples = add_sample c.operation c.elapsed log.samples;
    window_started_at = or_else log.window_started_at c.now;
  }),
  waiting-add_sample c.operation c.elapsed log.samples,
)

-- A window is open while samples wait.
abbrev Ready : SlowLog → Type 0
Ready log = (log.samples ≡ []) ⊎ (log.window_started_at ≢ none)

flush_slow-Ready :
    (force : Bool) (now : ℕ) (log : SlowLog) → Ready log → Ready (flush_slow force now log)
unfolding flush_slow
flush_slow-Ready force now log h = ground (arith, h)

record_each-Ready :
    (commands : List SlowCommand) (log : SlowLog) → Ready log → Ready (record_each commands log)
unfolding record_each record_slow
record_each-Ready [] log h = h
record_each-Ready (c ∷ commands) log h =
    record_each-Ready commands (record_slow c.operation c.elapsed c.now log)
      (flush_slow-Ready false c.now _ (inr (or_else-ne-none log.window_started_at c.now)))
  where
    or_else-ne-none : (window : Option ℕ) (now : ℕ) → or_else window now ≢ none
    or_else-ne-none none now e = cc
    or_else-ne-none (some started) now e = cc

flush_slow-all :
    (now : ℕ) (log : SlowLog) → Ready log → waiting (flush_slow true now log).samples ≡ 0
unfolding flush_slow
flush_slow-all now log h = ground (arith, h)

-- When the process has ended, its summaries count every slow command that it recorded, and each
-- once.
pub record_each-stated :
    (commands : List SlowCommand) (now : ℕ)
    → stated (on_module_destroy now (record_each commands no_slow_commands)).logged
      ≡ length commands
unfolding on_module_destroy
record_each-stated commands now =
    let log = record_each commands no_slow_commands in
    omega (
      arith,
      flush_slow-counts true now log,
      record_each-counts commands no_slow_commands,
      flush_slow-all now log (record_each-Ready commands no_slow_commands (inl refl)),
    )

-- A sample of at least one command, of which the total lies between what the extremes allow.
abbrev Fair : SlowCommandSample → Type 0
Fair s = (0 < s.count) × (s.least * s.count ≤ s.total) × (s.total ≤ s.most * s.count)

rounded-between :
    (least most total count : ℕ)
    → 0 < count
    → least * count ≤ total
    → total ≤ most * count
    → (least ≤ rounded total count) × (rounded total count ≤ most)
rounded-between least most total count some_ low high =
    let positive : 0 < 2 * count = omega (arith, some_) in
    let under = div-lt_iff_lt-mul {x = 2 * total + count} {y = least} positive in
    let over = div-lt_iff_lt-mul {x = 2 * total + count} {y = most + 1} positive in
    let below : 2 * total + count < (most + 1) * (2 * count) = omega (arith, high, some_) in
    (ground (arith, under, low), omega (arith, over.1 below))

sampled-Fair : (elapsed : ℕ) (s : SlowCommandSample) → Fair s → Fair (sampled elapsed s)
unfolding sampled
sampled-Fair elapsed s (some_, low, high) =
    let less : s.count * min s.least elapsed ≤ s.count * s.least =
      mul-le-mul_left s.count (omega arith) in
    let more : s.count * s.most ≤ s.count * max s.most elapsed =
      mul-le-mul_left s.count (omega arith) in
    (omega arith, omega (arith, less, low), omega (arith, more, high))

add_sample-Fair :
    (operation : String) (elapsed : ℕ) (samples : List SlowCommandSample)
    → All Fair samples
    → All Fair (add_sample operation elapsed samples)
unfolding add_sample
add_sample-Fair operation elapsed [] h = ((omega arith, omega arith, omega arith), tt)
add_sample-Fair operation elapsed (s ∷ samples) (here, h) =
    elim (Bool-cases (str_eq s.operation operation)) [
      | inl e ↦ rw e (sampled-Fair elapsed s here, h)
      | inr e ↦ rw e (here, add_sample-Fair operation elapsed samples h)
    ]

-- A line of which the average lies between the extremes.
abbrev pub Sound : SummaryLine → Type 0
Sound l = (0 < l.count) × (l.least ≤ l.average) × (l.average ≤ l.most)

map-Sound :
    (samples : List SlowCommandSample) → All Fair samples → All Sound (map summary_line samples)
unfolding summary_line
map-Sound [] h = tt
map-Sound (s ∷ samples) ((some_, low, high), h) =
    let (over, under) = rounded-between s.least s.most s.total s.count some_ low high in
    ((some_, over, under), map-Sound samples h)

abbrev Kept : SlowLog → Type 0
Kept log = All Fair log.samples × All (All Sound) log.logged

flush_slow-Kept :
    (force : Bool) (now : ℕ) (log : SlowLog) → Kept log → Kept (flush_slow force now log)
unfolding flush_slow
flush_slow-Kept force now log (fair, sound) =
    ground (arith, fair, sound, map-Sound log.samples fair)

record_each-Kept :
    (commands : List SlowCommand) (log : SlowLog) → Kept log → Kept (record_each commands log)
unfolding record_each record_slow
record_each-Kept [] log h = h
record_each-Kept (c ∷ commands) log (fair, sound) =
    record_each-Kept commands (record_slow c.operation c.elapsed c.now log) (
      flush_slow-Kept false c.now _ (add_sample-Fair c.operation c.elapsed log.samples fair, sound))

-- In every line of every summary that was logged, the command happened, and the average that is
-- stated lies between the least and the most.
pub record_each-Sound :
    (commands : List SlowCommand) (now : ℕ)
    → All (All Sound) (on_module_destroy now (record_each commands no_slow_commands)).logged
unfolding on_module_destroy
record_each-Sound commands now =
    (flush_slow-Kept true now _ (record_each-Kept commands no_slow_commands (tt, tt))).1
