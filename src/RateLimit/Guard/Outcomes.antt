-- ===== src/RateLimit/Guard/Outcomes.antt =====
-- Which requests the guard lets through, and what it tells the client.
use mathlib.Core.List.{Memᴰ}
use whisky_scrapper_node.Prelude.{
  ℕ, max, ◌≤◌, ◌≡◌, ◌≢◌, ◌⊎◌, inl, inr, refl, none, some, Bool, true, false, not, List, [], ◌∷◌,
  arith, All, ◌&&◌, Bool-cases, ltb, ltb→lt, ltb-false→le,
}
use whisky_scrapper_node.Hashes.{HashServer, Delivery, answered, lost_before, lost_after}
use whisky_scrapper_node.RateLimit.Bucket.{ceil_div}
use whisky_scrapper_node.RateLimit.Store.{
  RateLimitDecision, Limiter, consume, run, numbers, record_failure,
}
use whisky_scrapper_node.RateLimit.Store.Decode.{refuses}
use whisky_scrapper_node.RateLimit.Guard.{
  RateLimitConfig, Request, verdict_of, headers_of, charges, exempt, first_refused, narrowest_from,
  pick, report, proceed, refused, can_activate, count, failed_open,
}

-- The limiter applies to the request.
abbrev pub applies : RateLimitConfig → Request → Bool
applies config r = config.enabled && r.is_http && not (exempt r)

first_refused-none : (ds : List RateLimitDecision) → refuses ds ≡ false → first_refused ds ≡ none
unfolding first_refused
first_refused-none [] h = refl
first_refused-none (d ∷ ds) h = ground (arith, first_refused-none ds)

first_refused-some :
    (ds : List RateLimitDecision)
    → refuses ds ≡ true
    → (d : RateLimitDecision) × (first_refused ds ≡ some d) × (d.allowed ≡ false) × Memᴰ d ds
unfolding first_refused
first_refused-some [] h = cc
first_refused-some (d ∷ ds) h = elim (Bool-cases d.allowed) [
  | inl passed ↦
      let (e, found, stopped, m) = first_refused-some ds (rw passed at h) in
      (e, rw (passed, found), stopped, Memᴰ.tail m)
  | inr stopped ↦ (d, rw stopped, stopped, Memᴰ.head refl)
]

keep_head :
    {d b e : RateLimitDecision} {ds : List RateLimitDecision}
    → Memᴰ d (b ∷ ds)
    → Memᴰ d (b ∷ e ∷ ds)
keep_head (Memᴰ.head same) = Memᴰ.head same
keep_head (Memᴰ.tail m) = Memᴰ.tail (Memᴰ.tail m)

-- The decision kept by the `reduce` has the least left of all.
narrowest_from-least :
    (ds : List RateLimitDecision) (b : RateLimitDecision)
    → (d : RateLimitDecision) × (narrowest_from (some b) ds ≡ some d)
      × (d.remaining ≤ b.remaining)
      × All (λ e. d.remaining ≤ e.remaining) ds
      × Memᴰ d (b ∷ ds)
unfolding narrowest_from
narrowest_from-least [] b = (b, refl, omega arith, tt, Memᴰ.head refl)
narrowest_from-least (e ∷ ds) b = elim (Bool-cases (ltb b.remaining e.remaining)) [
  | inl less ↦
      let (d, found, le, least, at) = narrowest_from-least ds b in
      (d, rw less found, le, (omega (arith, ltb→lt _ _ less), least), keep_head at)
  | inr more ↦
      let (d, found, le, least, at) = narrowest_from-least ds e in
      (d, rw more found, omega (arith, ltb-false→le _ _ more), (le, least), Memᴰ.tail at)
]

all_allowed :
    {d : RateLimitDecision} (ds : List RateLimitDecision)
    → refuses ds ≡ false
    → Memᴰ d ds
    → d.allowed ≡ true
all_allowed [] h m = elim m [ ]
all_allowed (e ∷ ds) h (Memᴰ.head same) = ground arith
all_allowed (e ∷ ds) h (Memᴰ.tail m) = all_allowed ds (ground arith) m

-- What the guard reports when something was charged: a refusal if there is one, and else a
-- decision with the least left.
pub pick_lem :
    (c : RateLimitDecision) (cs : List RateLimitDecision)
    → (d : RateLimitDecision) × (pick (c ∷ cs) ≡ some d)
      × Memᴰ d (c ∷ cs)
      × (d.allowed ≡ not (refuses (c ∷ cs)))
      × ((refuses (c ∷ cs) ≡ true) ⊎ All (λ e. d.remaining ≤ e.remaining) (c ∷ cs))
unfolding pick
pick_lem c cs = elim (Bool-cases (refuses (c ∷ cs))) [
  | inl some_refused ↦
      let (d, found, stopped, m) = first_refused-some (c ∷ cs) some_refused in
      (d, rw (found, pick), m, rw (stopped, some_refused), inl some_refused)
  | inr none_refused ↦
      let (d, found, le, least, at) = narrowest_from-least cs c in
      (
        d,
        rw (first_refused-none (c ∷ cs) none_refused, pick) (unfold narrowest_from in found),
        at,
        rw none_refused (all_allowed (c ∷ cs) none_refused at),
        inr (le, least),
      )
]

outcome :
    (ds : List RateLimitDecision)
    → ((refuses ds ≡ false) × (verdict_of (pick ds) ≡ proceed))
      ⊎ ((d : RateLimitDecision) × Memᴰ d ds
          × (d.allowed ≡ false)
          × (verdict_of (pick ds) ≡ refused d.retry_after_ms)
          × (headers_of (pick ds)
              ≡ some (record {
                limit = d.limit;
                remaining = d.remaining;
                reset = ceil_div d.retry_after_ms 1000;
                retry_after = some (max 1 (ceil_div d.retry_after_ms 1000));
                retry_ms = some d.retry_after_ms;
              })))
unfolding verdict_of headers_of report
outcome [] = inl (refl, unfold pick first_refused narrowest_from in refl)
outcome (c ∷ cs) =
    let (d, found, m, tells, _) = pick_lem c cs in
    elim (Bool-cases (refuses (c ∷ cs))) [
      | inl one ↦
          let stopped : d.allowed ≡ false = rw one at tells in
          inr (d, m, stopped, rw (found, stopped), rw (found, stopped))
      | inr clear ↦
          let passed : d.allowed ≡ true = rw clear at tells in inl (clear, rw (found, passed))
    ]

module _ (server : HashServer) where
  open server use {State}

  module _ (config : RateLimitConfig) (at now : ℕ) (r : Request) (s : State) (l : Limiter)
      (on : applies config r ≡ true) where
    abbrev decisions_at : Delivery → List RateLimitDecision
    decisions_at d = (consume server d at now (charges config r) s l).0

    can_activate_on :
        (d : Delivery)
        → let o = can_activate server config d at now r s l in
          (o.verdict ≡ verdict_of (pick (decisions_at d)))
          × (o.headers ≡ headers_of (pick (decisions_at d)))
          × (o.metrics ≡ count (charges config r) (decisions_at d))
          × (o.limiter ≡ (consume server d at now (charges config r) s l).2)
    unfolding can_activate
    can_activate_on d = ground arith

    -- When the limiter applies and its script answers, either no bucket that was charged refused
    -- and the request proceeds, or one did and the request is refused with the wait of a bucket
    -- that refused, which the response states in whole seconds, at least one, and in milliseconds.
    pub can_activate-answered :
        let o = can_activate server config answered at now r s l in
        let ds = (consume server answered at now (charges config r) s l).0 in
        ((refuses ds ≡ false) × (o.verdict ≡ proceed))
        ⊎ ((d : RateLimitDecision) × Memᴰ d ds
            × (d.allowed ≡ false)
            × (o.verdict ≡ refused d.retry_after_ms)
            × (o.headers
                ≡ some (record {
                  limit = d.limit;
                  remaining = d.remaining;
                  reset = ceil_div d.retry_after_ms 1000;
                  retry_after = some (max 1 (ceil_div d.retry_after_ms 1000));
                  retry_ms = some d.retry_after_ms;
                })))
    can_activate-answered =
        let (verdict, headers, _, _) = can_activate_on answered in
        rw (verdict, headers) (outcome (decisions_at answered))

    -- When the limiter applies and the call of its script fails or times out, the request proceeds,
    -- its response states nothing, the metrics count one fail-open, and the failure is recorded.
    pub can_activate-lost :
        (d : Delivery)
        → d ≢ answered
        → let o = can_activate server config d at now r s l in
          (o.verdict ≡ proceed)
          × (o.headers ≡ none)
          × (o.metrics ≡ failed_open ∷ [])
          × (o.limiter ≡ record_failure now l)
    unfolding charges consume run numbers verdict_of headers_of pick count first_refused
        narrowest_from
    can_activate-lost answered h = absurd (h refl)
    can_activate-lost lost_before h = ground (arith, can_activate_on lost_before)
    can_activate-lost lost_after h = ground (arith, can_activate_on lost_after)
