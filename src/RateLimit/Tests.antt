-- ===== src/RateLimit/Tests.antt =====
-- The rate limiter on concrete requests.
use whisky_scrapper_node.Prelude.{
  String, ◌+◌, ◌-◌, ◌*◌, ◌≤◌, ◌≡◌, ◌⊎◌, refl, none, some, true, false, List, [], ◌∷◌, ◌++◌, arith,
  max,
}
use mathlib.Core.List.{Memᴰ}
use whisky_scrapper_node.Hashes.{table_server, empty_table, answered}
use whisky_scrapper_node.RateLimit.Bucket.{
  RateLimitRule, Stored, refilled, available, spend, charge, ceil_div,
}
use whisky_scrapper_node.RateLimit.Bucket.Window.{allowed_count, window_bound}
use whisky_scrapper_node.RateLimit.Script.{consume_script, answer, read_bucket, write_bucket}
use whisky_scrapper_node.RateLimit.Store.{
  RateLimitCharge, RateLimitDecision, consume, numbers, decisions, decisions_from, decision, run,
  keys_of, args_of,
}
use whisky_scrapper_node.RateLimit.Store.Decode.{consume-refused, refuses}
use whisky_scrapper_node.RateLimit.Store.Decode.Ideal.{
  ideal_decisions, ideal_buckets, consume-ideal,
}
use whisky_scrapper_node.RateLimit.Store.Failures.{fresh}
use whisky_scrapper_node.RateLimit.Guard.{
  RateLimitConfig, Request, can_activate, charges, exempt, proceed, refused,
}
use whisky_scrapper_node.RateLimit.Guard.Outcomes.{can_activate-answered}

-- Two requests at once, and ten a second.
abbrev rule : RateLimitRule
rule = record { rate_per_sec = 10; burst = 2 }

abbrev unseen : Stored
unseen = record { tokens = none; updated = none }

-- Half a token is left.
abbrev spent : Stored
spent = record { tokens = some 500; updated = some 1000 }

burst_then_rate : allowed_count rule (0 ∷ 0 ∷ 0 ∷ 50 ∷ 100 ∷ 200 ∷ []) unseen ≡ 4
unfolding allowed_count charge available spend refilled
burst_then_rate = refl

window_bound_example : allowed_count rule (0 ∷ 0 ∷ 50 ∷ []) unseen * 1000 ≤ 1000 * 2 + (60 - 0) * 10
window_bound_example = window_bound rule (0 ∷ 0 ∷ 50 ∷ []) unseen 0 60 (omega arith)

abbrev two_buckets : List RateLimitCharge
two_buckets =
    record { key = "global:ip:1"; rule = record { rate_per_sec = 10; burst = 0 } }
    ∷ record { key = "heavy:Report:ip:1"; rule = rule }
    ∷ []

abbrev one_bucket : List RateLimitCharge
one_bucket = record { key = "global:ip:1"; rule = record { rate_per_sec = 10; burst = 0 } } ∷ []

consume-ideal_example :
    let (decisions, s', l') = consume table_server answered 1000 5 two_buckets empty_table fresh in
    (decisions ≡ ideal_decisions 1000 two_buckets (read_bucket table_server empty_table))
    × ((k : String)
        → read_bucket table_server s' k
          ≡ ideal_buckets 1000 two_buckets (read_bucket table_server empty_table) k)
    × (l' ≡ fresh)
consume-ideal_example = consume-ideal table_server 1000 5 two_buckets empty_table fresh

consume-refused_example :
    consume table_server answered 1000 5 (one_bucket ++ two_buckets) empty_table fresh
    ≡ consume table_server answered 1000 5 one_bucket empty_table fresh
unfolding consume run numbers decisions decisions_from decision consume_script answer charge
    available spend read_bucket write_bucket keys_of args_of
consume-refused_example =
    consume-refused table_server 1000 5 one_bucket two_buckets empty_table fresh refl

abbrev config : RateLimitConfig
config = record { enabled = true; global_rule = rule; rule_for = λ profile. rule }

abbrev request : Request
request = record {
  is_http = true;
  skip = none;
  profile = some "heavy";
  controller = "ReportController";
  user_id = some "7";
  ip = "10.0.0.1";
}

abbrev tight : RateLimitDecision
tight = record { allowed = true; limit = 2; remaining = 0; retry_after_ms = 100 }

abbrev roomy : RateLimitDecision
roomy = record { allowed = true; limit = 5; remaining = 4; retry_after_ms = 0 }

can_activate-answered_example :
    let o = can_activate table_server config answered 1000 5 request empty_table fresh in
    let ds = (consume table_server answered 1000 5 (charges config request) empty_table fresh).0 in
    ((refuses ds ≡ false) × (o.verdict ≡ proceed))
    ⊎ ((d : RateLimitDecision) × Memᴰ d ds
        × (d.allowed ≡ false)
        × (o.verdict ≡ refused d.retry_after_ms)
        × (o.headers
            ≡ some (record {
              limit = d.limit;
              remaining = d.remaining;
              reset = ceil_div d.retry_after_ms 1000;
              retry_after = some (max 1 (ceil_div d.retry_after_ms 1000));
              retry_ms = some d.retry_after_ms;
            })))
unfolding exempt
can_activate-answered_example =
    can_activate-answered table_server config 1000 5 request empty_table fresh refl
