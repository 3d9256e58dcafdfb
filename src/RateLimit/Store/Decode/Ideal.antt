-- ===== src/RateLimit/Store/Decode/Ideal.antt =====
-- The limiter against buckets that stand in no server: a function from keys to what is stored.
use Prim.Native.String
use text.Mathlib.Text.{◌==◌ as str_eq}
use text.Mathlib.TextEquality.{eq_iff}
use whisky_scrapper_node.Prelude.{
  ℕ, ◌/◌, String, ◌≡◌, refl, ap, ◌∙◌, some, true, List, [], ◌∷◌, if◌then◌else◌, Bool-cases, inl,
  inr,
}
use whisky_scrapper_node.Hashes.{HashServer, answered, hget-hset}
use whisky_scrapper_node.RateLimit.Bucket.{Stored, available, spend, wait_for, lifetime, charge}
use whisky_scrapper_node.RateLimit.Script.{read_bucket, write_bucket}
use whisky_scrapper_node.RateLimit.Store.{
  RateLimitCharge, RateLimitDecision, Limiter, key_root, consume,
}
use whisky_scrapper_node.RateLimit.Store.Decode.{decide, charged, decided, after, consume-decided}

abbrev pub Buckets : Type 0
Buckets = String → Stored

abbrev pub bucket_key : RateLimitCharge → String
bucket_key c = String.◌++◌ key_root (String.◌++◌ ":" c.key)

-- Under the key of a charge, what the charge leaves; nothing else changes.
abbrev pub put : ℕ → RateLimitCharge → Buckets → Buckets
put at c b k = if str_eq (bucket_key c) k then (charge c.rule at (b (bucket_key c))).1 else b k

-- Each charge is decided on what its bucket holds, up to the first refusal.
pub ideal_decisions : ℕ → List RateLimitCharge → Buckets → List RateLimitDecision
ideal_decisions at [] b = []
ideal_decisions at (c ∷ cs) b =
    let later = ideal_decisions at cs (put at c b) in
    if (charge c.rule at (b (bucket_key c))).0
    then decide c.rule at (b (bucket_key c)) ∷ later
    else decide c.rule at (b (bucket_key c)) ∷ []

pub ideal_buckets : ℕ → List RateLimitCharge → Buckets → Buckets
ideal_buckets at [] b = b
ideal_buckets at (c ∷ cs) b =
    let later = ideal_buckets at cs (put at c b) in
    if (charge c.rule at (b (bucket_key c))).0 then later else put at c b

module _ (server : HashServer) (at : ℕ) where
  open server use {State, hget, hset, pexpire, hget-hset_self, hget-hset_ne, hget-pexpire}

  -- The two fields of a bucket, written one after the other.
  read_bucket-set :
      (key k : String) (tokens now ms : ℕ) (s : State)
      → read_bucket server (pexpire (hset (hset s key "t" tokens) key "u" now) key ms) k ≡ (
          if str_eq key k
          then record { tokens = some tokens; updated = some now }
          else read_bucket server s k)
  unfolding read_bucket
  read_bucket-set key k tokens now ms s = elim (Bool-cases (str_eq key k)) [
    | inl same ↦
        let is : key ≡ k = (eq_iff key k).0 same in
        rw same (rw is (simp (hget-pexpire, hget-hset server)))
    | inr other ↦
        let kept = λ (f : String).
          hget-pexpire (hset (hset s key "t" tokens) key "u" now) key ms k f
          ∙ hget-hset_ne (hset s key "t" tokens) key "u" k f now
              (inl (λ e. cc (other, (eq_iff key k).1 e)))
          ∙ hget-hset_ne s key "t" k f tokens (inl (λ e. cc (other, (eq_iff key k).1 e))) in
        rw other (λ i. record { tokens = kept "t" i; updated = kept "u" i })
  ]

  -- What a bucket holds after a charge was written.
  read_bucket-charged :
      (c : RateLimitCharge) (s : State)
      → read_bucket server (charged server at c s) ≡ put at c (read_bucket server s)
  unfolding write_bucket charge
  read_bucket-charged c s i k =
      let left = spend (available c.rule at (read_bucket server s (bucket_key c))) in
      read_bucket-set (bucket_key c) k left at (lifetime c.rule left) s i

  decided-ideal :
      (cs : List RateLimitCharge) (s : State)
      → decided server at cs s ≡ ideal_decisions at cs (read_bucket server s)
  unfolding decided ideal_decisions
  decided-ideal [] s = refl
  decided-ideal (c ∷ cs) s =
      elim (Bool-cases (charge c.rule at (read_bucket server s (bucket_key c))).0) [
        | inl passed ↦
            let rest =
              decided-ideal cs (charged server at c s)
              ∙ ap (ideal_decisions at cs) (read_bucket-charged c s) in
            rw passed (λ i.
              record {
                allowed = true;
                limit = c.rule.burst;
                remaining =
                    spend (available c.rule at (read_bucket server s (bucket_key c))) / 1000;
                retry_after_ms =
                    wait_for c.rule
                      (spend (available c.rule at (read_bucket server s (bucket_key c))));
              }
              ∷ rest i)
        | inr stopped ↦ rw stopped refl
      ]

  after-ideal :
      (cs : List RateLimitCharge) (s : State)
      → read_bucket server (after server at cs s) ≡ ideal_buckets at cs (read_bucket server s)
  unfolding after ideal_buckets
  after-ideal [] s = refl
  after-ideal (c ∷ cs) s =
      elim (Bool-cases (charge c.rule at (read_bucket server s (bucket_key c))).0) [
        | inl passed ↦ rw passed (
            after-ideal cs (charged server at c s)
            ∙ ap (ideal_buckets at cs) (read_bucket-charged c s))
        | inr stopped ↦ rw stopped (read_bucket-charged c s)
      ]

  -- When the script's reply arrives, the client's decisions are those of buckets that stand in no
  -- server, in the order of the charges and up to the first refusal; every bucket that was charged
  -- holds what its charge leaves, every other bucket what it held; and no failure is recorded.
  pub consume-ideal :
      (now : ℕ) (cs : List RateLimitCharge) (s : State) (l : Limiter)
      → let (decisions, s', l') = consume server answered at now cs s l in
        (decisions ≡ ideal_decisions at cs (read_bucket server s))
        × ((k : String) → read_bucket server s' k ≡ ideal_buckets at cs (read_bucket server s) k)
        × (l' ≡ l)
  consume-ideal now cs s l =
      let same = consume-decided server at now cs s l in
      rw same (decided-ideal cs s, λ k. ap (λ (b : Buckets). b k) (after-ideal cs s), refl)
