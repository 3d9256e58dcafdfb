-- ===== src/Llm/Turns.antt =====
-- The batch runner with several batches in flight (scrape/llm/llm-batch.runner.ts over
-- utils/concurrency-pool.util.ts). The loops of the pool take turns in any order, the provider may
-- answer a call anything at any time, and the deadline may pass at any time; a pause before a call
-- is a turn that is not taken.
pub mod Settled
mod Tests
use whisky_scrapper_node.Prelude.{
  ℕ, zero, suc, ◌+◌, ◌/◌, ◌≡◌, Option, none, some, Bool, true, false, List, [], ◌∷◌, ◌++◌, length,
  take, drop, ltb, max, if◌then◌else◌,
}
use whisky_scrapper_node.Sync.Tracks.{chunkify}
use whisky_scrapper_node.Llm.Policy.{LlmError, classify, transport, halve, fatal}
use whisky_scrapper_node.Llm.Pool.{pool_size}
use whisky_scrapper_node.Llm.Batch.{
  Event, handled, reported, progress, out_of_budget, aborted_before, error, transport_retry_rounds,
}

-- A loop between its calls: free, or with a batch that it claimed and the attempts that are left of
-- it, each with its retries, in the order in which they are sent.
pub data Loop (A : Type 0) : Type 0 where
  free : Loop A
  working : List A → List (ℕ × List A) → Loop A

-- `LlmRunState` with the batches that no loop claimed, the loops, and the events.
pub record Run (A : Type 0) : Type 0 where
  pub queue : List (List A)
  pub loops : List (Loop A)
  pub aborted : Bool
  pub done_items : ℕ
  pub events : List (Event A)

-- What becomes of an attempt that is answered: the attempts in its place, the event if there is
-- one, and whether the run is aborted.
pub record Answered (A : Type 0) : Type 0 where
  pub again : List (ℕ × List A)
  pub seen : List (Event A)
  pub is_fatal : Bool

module _ {A : Type 0} where
  abbrev pub give_up : LlmError → List A → Bool → Answered A
  give_up e batch is_fatal = record {
    again = [];
    seen = reported (error e) batch ∷ [];
    is_fatal = is_fatal;
  }

  -- The body of the loop of `attempt`, with `halve`.
  unfoldable pub answered : ℕ → List A → Option LlmError → Answered A
  answered retries batch none = record { again = []; seen = handled batch ∷ []; is_fatal = false }
  answered retries batch (some e) = elim (classify e) [
    | fatal ↦ give_up e batch true
    | transport ↦ elim retries [
      | zero ↦ give_up e batch false
      | suc left ↦ record { again = (left, batch) ∷ []; seen = []; is_fatal = false }
    ]
    | halve ↦ elim (ltb (length batch) 2) [
      | true ↦ give_up e batch false
      | false ↦ record {
        again =
            (transport_retry_rounds, take ((length batch + 1) / 2) batch)
            ∷ (transport_retry_rounds, drop ((length batch + 1) / 2) batch)
            ∷ [];
        seen = [];
        is_fatal = false;
      }
    ]
  ]

  -- One turn of a loop.
  pub data Turn (total : ℕ) : Run A → Run A → Type 0 where
    late :
        {batch : List A} {queue : List (List A)} {aborted : Bool} {done : ℕ}
        {events : List (Event A)} (before after : List (Loop A))
        → Turn total
            (record {
              queue = batch ∷ queue;
              loops = before ++ free ∷ after;
              aborted = aborted;
              done_items = done;
              events = events;
            })
            (record {
              queue = queue;
              loops = before ++ working batch [] ∷ after;
              aborted = aborted;
              done_items = done;
              events = events ++ reported out_of_budget batch ∷ [];
            })
    skips :
        {batch : List A} {queue : List (List A)} {done : ℕ} {events : List (Event A)}
        (before after : List (Loop A))
        → Turn total
            (record {
              queue = batch ∷ queue;
              loops = before ++ free ∷ after;
              aborted = true;
              done_items = done;
              events = events;
            })
            (record {
              queue = queue;
              loops = before ++ working batch [] ∷ after;
              aborted = true;
              done_items = done;
              events = events ++ reported aborted_before batch ∷ [];
            })
    takes :
        {batch : List A} {queue : List (List A)} {done : ℕ} {events : List (Event A)}
        (before after : List (Loop A))
        → Turn total
            (record {
              queue = batch ∷ queue;
              loops = before ++ free ∷ after;
              aborted = false;
              done_items = done;
              events = events;
            })
            (record {
              queue = queue;
              loops = before ++ working batch ((transport_retry_rounds, batch) ∷ []) ∷ after;
              aborted = false;
              done_items = done;
              events = events;
            })
    hears :
        {queue : List (List A)} {aborted : Bool} {done : ℕ} {events : List (Event A)}
        (before after : List (Loop A)) (batch : List A) (retries : ℕ) (sent : List A)
        (rest : List (ℕ × List A)) (answer : Option LlmError)
        → Turn total
            (record {
              queue = queue;
              loops = before ++ working batch ((retries, sent) ∷ rest) ∷ after;
              aborted = aborted;
              done_items = done;
              events = events;
            })
            (record {
              queue = queue;
              loops =
                  before ++ working batch ((answered retries sent answer).again ++ rest) ∷ after;
              aborted = (if (answered retries sent answer).is_fatal then true else aborted);
              done_items = done;
              events = events ++ (answered retries sent answer).seen;
            })
    ends :
        {queue : List (List A)} {aborted : Bool} {done : ℕ} {events : List (Event A)}
        (before after : List (Loop A)) (batch : List A)
        → Turn total
            (record {
              queue = queue;
              loops = before ++ working batch [] ∷ after;
              aborted = aborted;
              done_items = done;
              events = events;
            })
            (record {
              queue = queue;
              loops = before ++ free ∷ after;
              aborted = aborted;
              done_items = done + length batch;
              events = events ++ progress (done + length batch) total ∷ [];
            })

  pub data Turns (total : ℕ) : ℕ → Run A → Run A → Type 0 where
    stay : {r : Run A} → Turns total 0 r r
    turn : {n : ℕ} {r s t : Run A} → Turns total n r s → Turn total s t → Turns total (suc n) r t

  abbrev pub frees : ℕ → List (Loop A)
  frees zero = []
  frees (suc n) = free ∷ frees n

  -- `Math.max(1, options.concurrency ?? DEFAULT_CONCURRENCY)` loops at most.
  unfoldable pub started : ℕ → ℕ → List A → Run A
  started concurrency batch_size items = record {
    queue = chunkify batch_size items;
    loops = frees (pool_size (max 1 concurrency) (length (chunkify batch_size items)));
    aborted = false;
    done_items = 0;
    events = [];
  }
