-- ===== src/RateLimit/Store/Decode.antt =====
-- What a request's charges are answered, read off the buckets directly, against the reply of the
-- script as the client decodes it.
pub mod Ideal
use whisky_scrapper_node.Prelude.{
  ℕ, String, zero, suc, ◌+◌, ◌*◌, ◌/◌, ◌≤◌, ◌≡◌, refl, some, Bool, true, not, List, [], ◌∷◌, ◌++◌,
  map, if◌then◌else◌, length, all, any, take, get_elem?, arith, Bool-cases, length-append, inl, inr,
  ap, sym, ◌∙◌,
}
use Prim.Native.String
use mathlib.Core.Path.{ap₂}
use mathlib.Core.List.{append_assoc}
use whisky_scrapper_node.Hashes.{HashServer, answered, array}
use whisky_scrapper_node.RateLimit.Bucket.{
  RateLimitRule, Stored, available, spend, wait_for, charge,
}
use whisky_scrapper_node.RateLimit.Script.{answer, read_bucket, write_bucket, consume_script}
use whisky_scrapper_node.RateLimit.Store.{
  RateLimitCharge, RateLimitDecision, Limiter, key_root, keys_of, args_of, numbers, decision,
  decisions_from, decisions, run, consume, unwrap, is_number,
}

-- What one bucket answers at one time.
abbrev pub decide : RateLimitRule → ℕ → Stored → RateLimitDecision
decide rule at stored =
    let left = spend (available rule at stored) in
    record {
      allowed = (charge rule at stored).0;
      limit = rule.burst;
      remaining = left / 1000;
      retry_after_ms = wait_for rule left;
    }

-- Whether some bucket refused.
abbrev pub refuses : List RateLimitDecision → Bool
refuses = any (λ d. not d.allowed)

flat : List RateLimitDecision → List ℕ
flat [] = []
flat (d ∷ ds) = (if d.allowed then 1 else 0) ∷ d.remaining ∷ d.retry_after_ms ∷ flat ds

-- The decisions state the limits of the charges that they answer.
Fits : List RateLimitDecision → List RateLimitCharge → Type 0
Fits [] cs = Unit
Fits (d ∷ ds) [] = ⊥
Fits (d ∷ ds) (c ∷ cs) = (d.limit ≡ c.rule.burst) × Fits ds cs

length-flat : (ds : List RateLimitDecision) → length (flat ds) ≡ length ds * 3
unfolding flat
length-flat [] = refl
length-flat (d ∷ ds) = omega (arith, length-flat ds)

unwrap-some : (xs : List ℕ) → unwrap (map some xs) ≡ xs
unwrap-some [] = refl
unwrap-some (x ∷ xs) = ap (◌∷◌ x) (unwrap-some xs)

all-is_number : (xs : List ℕ) → all is_number (map some xs) ≡ true
all-is_number [] = refl
all-is_number (x ∷ xs) = all-is_number xs

length-map-some : (xs : List ℕ) → length (map (λ (x : ℕ). some x) xs) ≡ length xs
length-map-some [] = refl
length-map-some (x ∷ xs) = ap suc (length-map-some xs)

Fits-length :
    (ds : List RateLimitDecision) (cs : List RateLimitCharge) → Fits ds cs → length ds ≤ length cs
unfolding Fits
Fits-length [] cs h = omega arith
Fits-length (d ∷ ds) [] h = absurd h
Fits-length (d ∷ ds) (c ∷ cs) (e, h) = omega (arith, Fits-length ds cs h)

get_elem?-append :
    (xs ys : List ℕ) (k i : ℕ) → k ≡ length xs + i → get_elem? (xs ++ ys) k ≡ get_elem? ys i
get_elem?-append [] ys k i e = let same : k ≡ i = omega arith in rw same
get_elem?-append (x ∷ xs) ys zero i e = absurd (omega arith)
get_elem?-append (x ∷ xs) ys (suc k) i e = get_elem?-append xs ys k i (omega arith)

decision-flat :
    (d : RateLimitDecision) (ds : List RateLimitDecision) (c : RateLimitCharge) (before : List ℕ)
    (index : ℕ)
    → length before ≡ index * 3
    → d.limit ≡ c.rule.burst
    → decision (before ++ flat (d ∷ ds)) index c ≡ d
unfolding decision flat
decision-flat d ds c before index e l =
    let xs = flat (d ∷ ds) in
    ground (
      arith,
      get_elem?-append before xs (index * 3) 0 (omega arith),
      get_elem?-append before xs (index * 3 + 1) 1 (omega arith),
      get_elem?-append before xs (index * 3 + 2) 2 (omega arith),
    )

three : RateLimitDecision → List ℕ
three d = (if d.allowed then 1 else 0) ∷ d.remaining ∷ d.retry_after_ms ∷ []

flat-cons :
    (before : List ℕ) (d : RateLimitDecision) (ds : List RateLimitDecision)
    → before ++ flat (d ∷ ds) ≡ (before ++ three d) ++ flat ds
unfolding flat three
flat-cons before d ds = sym (append_assoc before (three d) (flat ds))

decisions_from-flat :
    (ds : List RateLimitDecision) (cs : List RateLimitCharge) (before : List ℕ) (index : ℕ)
    → length before ≡ index * 3
    → Fits ds cs
    → decisions_from (before ++ flat ds) index (take (length ds) cs) ≡ ds
unfolding decisions_from Fits
decisions_from-flat [] cs before index e h = refl
decisions_from-flat (d ∷ ds) [] before index e h = absurd h
decisions_from-flat (d ∷ ds) (c ∷ cs) before index e (l, h) =
    let longer : length (before ++ three d) ≡ suc index * 3 =
      unfold three in omega (arith, length-append before (three d)) in
    ap₂ (◌∷◌) (decision-flat d ds c before index e l) (
      ap (λ xs. decisions_from xs (suc index) (take (length ds) cs)) (flat-cons before d ds)
      ∙ decisions_from-flat ds cs (before ++ three d) (suc index) longer h)

module _ (server : HashServer) (at : ℕ) where
  open server use {State}

  abbrev key_of : RateLimitCharge → String
  key_of c = String.◌++◌ key_root (String.◌++◌ ":" c.key)

  -- The state after one bucket is charged.
  abbrev charged : RateLimitCharge → State → State
  charged c s = write_bucket server c.rule at (read_bucket server s (key_of c)) s (key_of c)

  -- The decisions on a request's charges: each on what its bucket holds, up to the first refusal.
  pub decided : List RateLimitCharge → State → List RateLimitDecision
  decided [] s = []
  decided (c ∷ cs) s =
      let d = decide c.rule at (read_bucket server s (key_of c)) in
      let later = decided cs (charged c s) in if d.allowed then d ∷ later else d ∷ []

  -- The server's state after them.
  pub after : List RateLimitCharge → State → State
  after [] s = s
  after (c ∷ cs) s =
      let later = after cs (charged c s) in
      if (charge c.rule at (read_bucket server s (key_of c))).0 then later else charged c s

  decided-Fits : (cs : List RateLimitCharge) (s : State) → Fits (decided cs s) cs
  unfolding decided Fits
  decided-Fits [] s = tt
  decided-Fits (c ∷ cs) s =
      elim (Bool-cases (charge c.rule at (read_bucket server s (key_of c))).0) [
        | inl passed ↦ rw passed (refl, decided-Fits cs (charged c s))
        | inr stopped ↦ rw stopped (refl, tt)
      ]

  consume_script-decided :
      (cs : List RateLimitCharge) (s : State)
      → consume_script server at (keys_of cs) (args_of cs) s
        ≡ (some (flat (decided cs s)), after cs s)
  unfolding consume_script keys_of args_of decided after flat answer
  consume_script-decided [] s = refl
  consume_script-decided (c ∷ cs) s =
      let ih = consume_script-decided cs (charged c s) in
      elim (Bool-cases (charge c.rule at (read_bucket server s (key_of c))).0) [
        | inl passed ↦ rw (passed, ih) (rw passed)
        | inr stopped ↦ rw stopped
      ]

  numbers-flat :
      (ds : List RateLimitDecision) (n : ℕ)
      → length ds ≤ n
      → numbers (array (map some (flat ds))) n ≡ some (flat ds)
  unfolding numbers
  numbers-flat ds n h = ground (
    arith,
    length-map-some (flat ds),
    length-flat ds,
    all-is_number (flat ds),
    unwrap-some (flat ds),
  )

  decisions-flat :
      (ds : List RateLimitDecision) (cs : List RateLimitCharge)
      → Fits ds cs
      → decisions (flat ds) cs ≡ ds
  unfolding decisions
  decisions-flat ds cs h =
      let charged : length (flat ds) / 3 ≡ length ds = omega (arith, length-flat ds) in
      rw charged (decisions_from-flat ds cs [] 0 refl h)

  -- When the script's reply arrives, the client's decisions are those of the buckets themselves, in
  -- the order of the charges and up to the first refusal; every charged bucket is stored as its
  -- charge leaves it, and no failure is recorded.
  pub consume-decided :
      (now : ℕ) (cs : List RateLimitCharge) (s : State) (l : Limiter)
      → consume server answered at now cs s l ≡ (decided cs s, after cs s, l)
  unfolding consume run
  consume-decided now [] s l = unfold decided after in refl
  consume-decided now (c ∷ cs) s l =
      let fits = decided-Fits (c ∷ cs) s in
      rw (
        consume_script-decided,
        numbers-flat (decided (c ∷ cs) s) (length (c ∷ cs)) (Fits-length _ (c ∷ cs) fits),
        decisions-flat (decided (c ∷ cs) s) (c ∷ cs) fits,
      )

  decided-append :
      (cs rest : List RateLimitCharge) (s : State)
      → refuses (decided cs s) ≡ true
      → (decided (cs ++ rest) s ≡ decided cs s) × (after (cs ++ rest) s ≡ after cs s)
  unfolding decided after
  decided-append [] rest s h = absurd (ground arith)
  decided-append (c ∷ cs) rest s h =
      elim (Bool-cases (charge c.rule at (read_bucket server s (key_of c))).0) [
        | inl passed ↦
            let (same, left) = decided-append cs rest (charged c s) (rw passed at h) in
            (rw (passed, same), rw (passed, left))
        | inr stopped ↦ (rw stopped, rw stopped)
      ]

  -- A request that one of its buckets refuses spends nothing from the buckets after it: with more
  -- charges behind those that refuse, the decisions and the server's state are the same.
  pub consume-refused :
      (now : ℕ) (cs rest : List RateLimitCharge) (s : State) (l : Limiter)
      → refuses (consume server answered at now cs s l).0 ≡ true
      → consume server answered at now (cs ++ rest) s l ≡ consume server answered at now cs s l
  consume-refused now cs rest s l h =
      let (same, left) = decided-append cs rest s (rw consume-decided at h) in
      rw (consume-decided now (cs ++ rest) s l, consume-decided now cs s l, same, left)
