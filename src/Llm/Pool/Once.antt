-- ===== src/Llm/Pool/Once.antt =====
-- Every item is worked on once.
use whisky_scrapper_node.Prelude.{
  ℕ, ◌+◌, ◌≤◌, ◌<◌, ◌≡◌, ap, ◌∙◌, List, [], ◌∷◌, ◌++◌, length, filter, ltb, ◌==◌, if◌then◌else◌,
  length-append, filter-append, arith,
}
use whisky_scrapper_node.Llm.Pool.{Pool, PoolStep, PoolSteps, idle, claims, ends, stay, step}

-- How often an index stands in a list.
abbrev pub times : ℕ → List ℕ → ℕ
times k xs = length (filter (λ x. x == k) xs)

-- What was claimed is running or finished, once, and nothing else is.
record Holds (concurrency items : ℕ) (p : Pool) : Type 0 where
  once : (k : ℕ) → times k p.running + times k p.finished ≡ (if ltb k p.cursor then 1 else 0)
  within : p.cursor ≤ items

times-append : (k : ℕ) (xs ys : List ℕ) → times k (xs ++ ys) ≡ times k xs + times k ys
times-append k xs ys =
    ap length (filter-append (λ x. x == k) xs ys)
    ∙ length-append (filter (λ x. x == k) xs) (filter (λ x. x == k) ys)

PoolStep-Holds :
    (concurrency items : ℕ) {p q : Pool}
    → PoolStep concurrency items p q
    → Holds concurrency items p
    → Holds concurrency items q
PoolStep-Holds concurrency items (claims {cursor} {running} {finished} more free) h = record {
  once = λ k. ground (arith, h.once k, more);
  within = omega (arith, more);
}
PoolStep-Holds concurrency items (ends {cursor} {finished} before index after) h = record {
  once = λ k.
      ground (arith, h.once k, times-append k before (index ∷ after), times-append k before after);
  within = h.within;
}

PoolSteps-Holds :
    (concurrency items : ℕ) {p q : Pool}
    → PoolSteps concurrency items p q
    → Holds concurrency items p
    → Holds concurrency items q
PoolSteps-Holds concurrency items stay h = h
PoolSteps-Holds concurrency items (step before last) h =
    PoolStep-Holds concurrency items last (PoolSteps-Holds concurrency items before h)

idle-Holds : (concurrency items : ℕ) → Holds concurrency items idle
idle-Holds concurrency items = record { once = λ k. ground arith; within = omega arith }

-- However the loops of a pool took turns, when they are through, which is when no worker runs and
-- the cursor is at the end, each item was worked on, and once.
pub PoolSteps-finished :
    (concurrency items : ℕ) (p : Pool) (k : ℕ)
    → PoolSteps concurrency items idle p
    → p.cursor ≡ items
    → p.running ≡ []
    → k < items
    → times k p.finished ≡ 1
PoolSteps-finished concurrency items p k steps through quiet below =
    let h = PoolSteps-Holds concurrency items steps (idle-Holds concurrency items) in
    ground (arith, h.once k, ap (times k) quiet, through, below)
