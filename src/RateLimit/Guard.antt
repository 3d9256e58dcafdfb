-- ===== src/RateLimit/Guard.antt =====
-- The guard that charges every request (app/rate-limit/user-rate-limit.guard.ts). What the
-- framework says of a request (its type, the metadata of its route, the resolved caller) is a
-- record.
pub mod Outcomes
pub mod Labels
use Prim.Native.Char.{code}
use Prim.Native.String
use text.Mathlib.Text.{◌==◌ as str_eq}
use whisky_scrapper_node.Prelude.{
  ℕ, String, max, Option, none, some, Bool, false, not, List, [], ◌∷◌, if◌then◌else◌, ◌||◌, ltb,
  ◌==◌,
}
use whisky_scrapper_node.Hashes.{HashServer, Delivery}
use whisky_scrapper_node.RateLimit.Bucket.{RateLimitRule, ceil_div}
use whisky_scrapper_node.RateLimit.Store.{RateLimitCharge, RateLimitDecision, Limiter, consume}

-- The settings that the guard reads.
pub record RateLimitConfig : Type 0 where
  pub enabled : Bool
  pub global_rule : RateLimitRule
  pub rule_for : String → RateLimitRule

-- The facts of one request: `profile` and `skip` are its route's metadata.
pub record Request : Type 0 where
  pub is_http : Bool
  pub skip : Option Bool
  pub profile : Option String
  pub controller : String
  pub user_id : Option String
  pub ip : String

-- A string that JavaScript takes for true.
abbrev pub truthy : Option String → Bool
truthy none = false
truthy (some s) = not (str_eq s "")

infixr 66 ◌++ₛ◌
abbrev ◌++ₛ◌ : String → String → String
s ++ₛ t = String.◌++◌ s t

abbrev pub or_empty : Option String → String
or_empty none = ""
or_empty (some s) = s

unfoldable pub tracker : Request → String
tracker r = if truthy r.user_id then "user:" ++ₛ or_empty r.user_id else "ip:" ++ₛ r.ip

unfoldable pub charges : RateLimitConfig → Request → List RateLimitCharge
charges config r =
    let general : RateLimitCharge = record {
      key = "global:" ++ₛ tracker r;
      rule = config.global_rule;
    } in
    let profile = or_empty r.profile in
    if truthy r.profile
    then general
      ∷ record {
        key = profile ++ₛ ":" ++ₛ r.controller ++ₛ ":" ++ₛ tracker r;
        rule = config.rule_for profile;
      }
      ∷ []
    else general ∷ []

unfoldable pub exempt : Request → Bool
exempt r = elim r.skip [ none ↦ false | some b ↦ b ]

-- `decisions.find(d => !d.allowed)`.
unfoldable pub first_refused : List RateLimitDecision → Option RateLimitDecision
first_refused [] = none
first_refused (d ∷ ds) = if d.allowed then first_refused ds else some d

-- The `reduce` of `pick`: a later decision wins unless the earlier has less left.
unfoldable pub narrowest_from :
    Option RateLimitDecision → List RateLimitDecision → Option RateLimitDecision
narrowest_from best [] = best
narrowest_from best (d ∷ ds) =
    narrowest_from
      (elim best [
        | none ↦ some d
        | some b ↦ if ltb b.remaining d.remaining then some b else some d
      ])
      ds

unfoldable pub pick : List RateLimitDecision → Option RateLimitDecision
pick ds = elim (first_refused ds) [ none ↦ narrowest_from none ds | some d ↦ some d ]

-- The headers of the response: the last two are set on a refusal only.
pub record Headers : Type 0 where
  pub limit : ℕ
  pub remaining : ℕ
  pub reset : ℕ
  pub retry_after : Option ℕ
  pub retry_ms : Option ℕ

unfoldable pub report : RateLimitDecision → Headers
report d =
    let seconds = ceil_div d.retry_after_ms 1000 in
    record {
      limit = d.limit;
      remaining = d.remaining;
      reset = seconds;
      retry_after = if d.allowed then none else some (max 1 seconds);
      retry_ms = if d.allowed then none else some d.retry_after_ms;
    }

-- The text before the first colon, if there is a colon.
unfoldable pub before_colon : String → Option String
before_colon String.[] = none
before_colon (String.◌∷◌ c s) =
    let rest = before_colon s in
    if code c == b':' then some "" else elim rest [ none ↦ none | some t ↦ some (String.◌∷◌ c t) ]

-- The label under which a bucket is counted.
unfoldable pub label : String → String
label key = elim (before_colon key) [
  | none ↦ "unknown"
  | some t ↦ if str_eq t "" then "unknown" else t
]

-- What the guard tells the metrics.
pub data Metric : Type 0 where
  failed_open : Metric
  limited : String → Bool → Metric

unfoldable pub count_each : List RateLimitCharge → List RateLimitDecision → List Metric
count_each cs [] = []
count_each [] (d ∷ ds) = limited "unknown" d.allowed ∷ count_each [] ds
count_each (c ∷ cs) (d ∷ ds) = limited (label c.key) d.allowed ∷ count_each cs ds

unfoldable pub count : List RateLimitCharge → List RateLimitDecision → List Metric
count cs [] = failed_open ∷ []
count cs (d ∷ ds) = count_each cs (d ∷ ds)

-- How the guard ends: the request proceeds, or `TooManyRequestsError` carries the wait.
pub data Verdict : Type 0 where
  proceed : Verdict
  refused : ℕ → Verdict

unfoldable pub verdict_of : Option RateLimitDecision → Verdict
verdict_of none = proceed
verdict_of (some d) = if d.allowed then proceed else refused d.retry_after_ms

unfoldable pub headers_of : Option RateLimitDecision → Option Headers
headers_of none = none
headers_of (some d) = some (report d)

module _ (server : HashServer) where
  open server use {State}

  pub record Outcome : Type 0 where
    pub verdict : Verdict
    pub headers : Option Headers
    pub metrics : List Metric
    pub server_state : State
    pub limiter : Limiter

  unfoldable pub can_activate :
      RateLimitConfig → Delivery → ℕ → ℕ → Request → State → Limiter → Outcome
  can_activate config delivery at now r s l =
      let silent : Outcome = record {
        verdict = proceed;
        headers = none;
        metrics = [];
        server_state = s;
        limiter = l;
      } in
      let cs = charges config r in
      let (ds, s', l') = consume server delivery at now cs s l in
      if not config.enabled || not r.is_http then silent else if exempt r then silent else record {
        verdict = verdict_of (pick ds);
        headers = headers_of (pick ds);
        metrics = count cs ds;
        server_state = s';
        limiter = l';
      }
