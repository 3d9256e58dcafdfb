-- ===== src/Llm/Batch.antt =====
-- The batch runner (scrape/llm/llm-batch.runner.ts), one batch after another, which is its default
-- concurrency. What the provider answers to the n-th call is an argument, and so is how long the
-- call takes. `events` is what `handler`, `onError` and `onProgress` saw, in their order.
pub mod Settled
pub mod Poison
use whisky_scrapper_node.Prelude.{
  ℕ, zero, suc, ◌+◌, ◌-◌, ◌*◌, ◌/◌, max, Option, none, some, Bool, true, false, List, [], ◌∷◌, ◌++◌,
  if◌then◌else◌, ltb, leb, length, take, drop,
}
use whisky_scrapper_node.Sync.Tracks.{chunkify}
use whisky_scrapper_node.Llm.Policy.{LlmError, classify, transport, halve, fatal, retry_delay_ms}

-- TRANSPORT_RETRY_ROUNDS
abbrev pub transport_retry_rounds : ℕ
transport_retry_rounds = 1

-- Why a batch was not processed.
pub data Reason : Type 0 where
  out_of_budget aborted_before : Reason
  error : LlmError → Reason

pub data Event (A : Type 0) : Type 0 where
  handled : List A → Event A
  reported : Reason → List A → Event A
  progress : ℕ → ℕ → Event A

-- The provider: how long the n-th call takes, and its error, `none` if it succeeds.
pub record Provider (A : Type 0) : Type 0 where
  pub takes_ms : ℕ → ℕ
  pub answers : ℕ → List A → Option LlmError

-- LlmRunState, with the time, the calls that were made and the events.
pub record LlmRunState (A : Type 0) : Type 0 where
  pub done_items : ℕ
  pub aborted : Bool
  pub backoff_until : ℕ
  pub now : ℕ
  pub calls : ℕ
  pub events : List (Event A)

module _ {A : Type 0} (provider : Provider A) where
  open provider use {takes_ms, answers}

  abbrev pub emit : Event A → LlmRunState A → LlmRunState A
  emit e s = record s { events = s.events ++ e ∷ [] }

  -- `waitOutBackoff`.
  unfoldable pub wait_out_backoff : LlmRunState A → LlmRunState A
  wait_out_backoff s = record s { now = max s.now s.backoff_until }

  -- `backOff`.
  unfoldable pub back_off : LlmError → ℕ → LlmRunState A → LlmRunState A
  back_off e round s = record s {
    backoff_until = max s.backoff_until (s.now + retry_delay_ms e round);
  }

  -- One call of the handler.
  unfoldable pub call : LlmRunState A → LlmRunState A
  call s = record s { now = s.now + takes_ms s.calls; calls = s.calls + 1 }

  abbrev pub half_of : List A → ℕ
  half_of batch = (length batch + 1) / 2

  -- `attempt` from the round on that leaves so many retries, with `halve`. It stops where the
  -- fuel is out.
  unfoldable pub attempt : ℕ → ℕ → List A → LlmRunState A → LlmRunState A
  attempt zero retries batch s = s
  attempt (suc fuel) retries batch s =
      let ready = wait_out_backoff s in
      let sent = call ready in
      elim (answers ready.calls batch) [
        | none ↦ emit (handled batch) sent
        | some e ↦ elim (classify e) [
          | fatal ↦ emit (reported (error e) batch) (record sent { aborted = true })
          | transport ↦ elim retries [
            | zero ↦ emit (reported (error e) batch) sent
            | suc left ↦
                attempt fuel left batch (back_off e (transport_retry_rounds - suc left) sent)
          ]
          | halve ↦ elim (ltb (length batch) 2) [
            | true ↦ emit (reported (error e) batch) sent
            | false ↦
                attempt fuel transport_retry_rounds (drop (half_of batch) batch)
                  (attempt fuel transport_retry_rounds (take (half_of batch) batch) sent)
          ]
        ]
      ]

  -- Enough fuel for a batch: each length is tried at most twice.
  abbrev pub fuel_for : List A → ℕ
  fuel_for batch = 2 * length batch + 2

  -- `take`. The deadline is the time at which the signal is aborted, if there is one.
  unfoldable pub is_past : Option ℕ → LlmRunState A → Bool
  is_past none s = false
  is_past (some at) s = leb at s.now

  unfoldable pub take_batch : Option ℕ → List A → LlmRunState A → LlmRunState A
  take_batch deadline batch s = elim (is_past deadline s) [
    | true ↦ emit (reported out_of_budget batch) s
    | false ↦ elim s.aborted [
      | true ↦ emit (reported aborted_before batch) s
      | false ↦ attempt (fuel_for batch) transport_retry_rounds batch s
    ]
  ]

  abbrev pub advance : ℕ → List A → LlmRunState A → LlmRunState A
  advance total batch s =
      emit (progress (s.done_items + length batch) total)
        (record s { done_items = s.done_items + length batch })

  unfoldable pub run_batches : Option ℕ → ℕ → List (List A) → LlmRunState A → LlmRunState A
  run_batches deadline total [] s = s
  run_batches deadline total (batch ∷ batches) s =
      run_batches deadline total batches (advance total batch (take_batch deadline batch s))

  unfoldable pub run : Option ℕ → ℕ → List A → ℕ → LlmRunState A
  run deadline batch_size items now =
      run_batches deadline (length items) (chunkify batch_size items) (record {
        done_items = 0;
        aborted = false;
        backoff_until = 0;
        now = now;
        calls = 0;
        events = [];
      })
