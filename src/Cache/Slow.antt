-- ===== src/Cache/Slow.antt =====
-- The log of slow commands (lib/cache/versioned-cache.service.ts, recordSlow and flushSlow). A `Map`
-- is the list of its entries in the order of insertion; times are in milliseconds.
pub mod Summary
use text.Mathlib.Text.{◌==◌ as str_eq}
use whisky_scrapper_node.Prelude.{
  ℕ, suc, ◌+◌, ◌-◌, ◌*◌, ◌/◌, min, max, String, Option, none, some, Bool, true, false, not, ◌&&◌,
  ◌||◌, List, [], ◌∷◌, ◌++◌, map, if◌then◌else◌, ltb,
}

pub record SlowCommandSample : Type 0 where
  pub operation : String
  pub count : ℕ
  pub least : ℕ
  pub most : ℕ
  pub total : ℕ

-- One operation of the line that is logged.
pub record SummaryLine : Type 0 where
  pub operation : String
  pub count : ℕ
  pub least : ℕ
  pub average : ℕ
  pub most : ℕ

-- The fields of the service, with the summaries that were logged, the last one first.
pub record SlowLog : Type 0 where
  pub samples : List SlowCommandSample
  pub window_started_at : Option ℕ
  pub logged : List (List SummaryLine)

abbrev pub window_ms : ℕ
window_ms = 60000

-- `Math.round(total / count)`.
abbrev pub rounded : ℕ → ℕ → ℕ
rounded total count = (2 * total + count) / (2 * count)

unfoldable pub summary_line : SlowCommandSample → SummaryLine
summary_line s = record {
  operation = s.operation;
  count = s.count;
  least = s.least;
  average = rounded s.total s.count;
  most = s.most;
}

unfoldable pub sampled : ℕ → SlowCommandSample → SlowCommandSample
sampled elapsed s = record s {
  count = s.count + 1;
  least = min s.least elapsed;
  most = max s.most elapsed;
  total = s.total + elapsed;
}

unfoldable pub add_sample : String → ℕ → List SlowCommandSample → List SlowCommandSample
add_sample operation elapsed [] =
    record { operation = operation; count = 1; least = elapsed; most = elapsed; total = elapsed }
    ∷ []
add_sample operation elapsed (s ∷ samples) =
    let rest = add_sample operation elapsed samples in
    if str_eq s.operation operation then sampled elapsed s ∷ samples else s ∷ rest

abbrev pub is_empty : List SlowCommandSample → Bool
is_empty [] = true
is_empty (s ∷ samples) = false

unfoldable pub flush_slow : Bool → ℕ → SlowLog → SlowLog
flush_slow force now log = elim log.window_started_at [
  | none ↦ log
  | some started ↦
      if is_empty log.samples
      then log
      else if not force && ltb (now - started) window_ms
      then log
      else record {
        samples = [];
        window_started_at = none;
        logged = map summary_line log.samples ∷ log.logged;
      }
]

abbrev pub or_else : Option ℕ → ℕ → Option ℕ
or_else none now = some now
or_else (some started) now = some started

unfoldable pub record_slow : String → ℕ → ℕ → SlowLog → SlowLog
record_slow operation elapsed now log = flush_slow false now (record log {
  samples = add_sample operation elapsed log.samples;
  window_started_at = or_else log.window_started_at now;
})

-- One slow command: what it was, how long it took and when it ended.
pub record SlowCommand : Type 0 where
  pub operation : String
  pub elapsed : ℕ
  pub now : ℕ

abbrev pub no_slow_commands : SlowLog
no_slow_commands = record { samples = []; window_started_at = none; logged = [] }

-- The log after a number of slow commands, and at the end of the process, which flushes it.
unfoldable pub record_each : List SlowCommand → SlowLog → SlowLog
record_each [] log = log
record_each (c ∷ commands) log = record_each commands (record_slow c.operation c.elapsed c.now log)

unfoldable pub on_module_destroy : ℕ → SlowLog → SlowLog
on_module_destroy now log = flush_slow true now log
