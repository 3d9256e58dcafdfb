-- ===== src/Llm/Tests.antt =====
-- The batch runner and the pool on concrete inputs.
use whisky_scrapper_node.Prelude.{
  ℕ, ◌≡◌, refl, none, some, List, [], ◌∷◌, any, if◌then◌else◌, ◌==◌, arith,
}
use whisky_scrapper_node.Llm.Policy.{LlmError, other, rate_limit, classify}
use whisky_scrapper_node.Llm.Batch.{Provider, run}
use whisky_scrapper_node.Llm.Batch.Poison.{lost, run-lost}
use whisky_scrapper_node.Llm.Pool.{Pool, PoolSteps, pool_size, idle, claims, ends, stay, step}
use whisky_scrapper_node.Llm.Pool.Once.{times, PoolSteps-finished}

abbrev garbled : LlmError
garbled = record { class = other; retry_after = none }

abbrev busy : LlmError
busy = record { class = rate_limit; retry_after = some 3 }

-- The first call is refused for now, and then every batch with a 4 in it is answered badly.
abbrev provider : Provider ℕ
provider = record {
  takes_ms = λ n. 100;
  answers = λ n batch.
      if n == 0 then some busy else if any (λ x. x == 4) batch then some garbled else none;
}

abbrev items : List ℕ
items = 1 ∷ 2 ∷ 3 ∷ 4 ∷ 5 ∷ []

abbrev steady : Provider ℕ
steady = record {
  takes_ms = λ n. 100;
  answers = λ n batch. if any (λ x. x == 4) batch then some garbled else none;
}

run-lost_example : lost (run steady none 3 items 0).events ≡ 4 ∷ []
unfolding classify
run-lost_example =
    run-lost steady (λ x. x == 4) garbled refl (λ n batch. refl) 3 items 0 (omega arith)

-- Two items, claimed one after another, of which the second is through first.
abbrev through : Pool
through = record { cursor = 2; running = []; finished = 0 ∷ 1 ∷ [] }

abbrev turns : PoolSteps 4 2 idle through
unfolding pool_size
turns =
    step
      (step
        (step (step stay (claims {finished = []} (omega arith) (omega arith)))
          (claims {finished = []} (omega arith) (omega arith)))
        (ends [] 1 (0 ∷ [])))
      (ends [] 0 [])

PoolSteps-finished_example : times 1 through.finished ≡ 1
PoolSteps-finished_example = PoolSteps-finished 4 2 through 1 turns refl refl (omega arith)
