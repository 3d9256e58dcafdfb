-- ===== src/Llm/Turns/Tests.antt =====
-- A run of several loops on one item.
use whisky_scrapper_node.Prelude.{ℕ, ◌≡◌, refl, none, Bool, false, [], ◌∷◌, arith, slices}
use whisky_scrapper_node.Sync.Tracks.{chunkify}
use whisky_scrapper_node.Llm.Pool.{pool_size}
use whisky_scrapper_node.Llm.Batch.{handled, progress}
use whisky_scrapper_node.Llm.Batch.Settled.{settled}
use whisky_scrapper_node.Llm.Turns.{
  Run, free, takes, hears, ends, Turns, stay, turn, started, answered,
}
use whisky_scrapper_node.Llm.Turns.Settled.{passing, Turns-settled}

-- One item, in one batch, which is sent and answered.
abbrev three_turns : Run ℕ
three_turns = record {
  queue = [];
  loops = free ∷ [];
  aborted = false;
  done_items = 1;
  events = handled (7 ∷ []) ∷ progress 1 1 ∷ [];
}

taken : Turns 1 3 (started 5 40 (7 ∷ [])) three_turns
unfolding started pool_size chunkify slices answered
taken =
    turn (turn (turn stay (takes [] [])) (hears [] [] (7 ∷ []) 1 (7 ∷ []) [] none))
      (ends [] [] (7 ∷ []))

Turns-settled_example :
    ((p : ℕ → Bool) → passing p (settled three_turns.events) ≡ passing p (7 ∷ []))
    × (three_turns.done_items ≡ 1)
Turns-settled_example =
    Turns-settled 5 40 (7 ∷ []) 3 three_turns (omega arith) taken (refl, 1, refl)
