-- ===== src/Llm/Pool.antt =====
-- The pool that bounds how many calls are in flight (utils/concurrency-pool.util.ts), as steps of its
-- loops in any order: a loop claims the item at the cursor, and later its worker resolves.
pub mod Once
use whisky_scrapper_node.Prelude.{ℕ, ◌+◌, ◌<◌, min, max, List, [], ◌∷◌, ◌++◌, length}

pub record Pool : Type 0 where
  pub cursor : ℕ
  pub running : List ℕ
  pub finished : List ℕ

-- `Math.max(1, Math.min(concurrency, queue.length))`.
unfoldable pub pool_size : ℕ → ℕ → ℕ
pool_size concurrency items = max 1 (min concurrency items)

abbrev pub idle : Pool
idle = record { cursor = 0; running = []; finished = [] }

-- A loop that is free claims; a worker that is running ends.
pub data PoolStep (concurrency items : ℕ) : Pool → Pool → Type 0 where
  claims :
      {cursor : ℕ} {running finished : List ℕ}
      → cursor < items
      → length running < pool_size concurrency items
      → PoolStep concurrency items
          (record { cursor = cursor; running = running; finished = finished })
          (record { cursor = cursor + 1; running = cursor ∷ running; finished = finished })
  ends :
      {cursor : ℕ} {finished : List ℕ} (before : List ℕ) (index : ℕ) (after : List ℕ)
      → PoolStep concurrency items
          (record { cursor = cursor; running = before ++ index ∷ after; finished = finished })
          (record { cursor = cursor; running = before ++ after; finished = index ∷ finished })

pub data PoolSteps (concurrency items : ℕ) : Pool → Pool → Type 0 where
  stay : {p : Pool} → PoolSteps concurrency items p p
  step :
      {p q r : Pool}
      → PoolSteps concurrency items p q
      → PoolStep concurrency items q r
      → PoolSteps concurrency items p r
