-- ===== src/Llm/Batch/Settled.antt =====
-- Every item is accounted for.
use mathlib.Core.List.{append-nil, append_assoc}
use whisky_scrapper_node.Prelude.{
  ℕ, zero, suc, ◌+◌, ◌*◌, ◌≤◌, ◌<◌, ◌≡◌, ◌⊎◌, refl, sym, ap, ◌∙◌, Option, some, List, [], ◌∷◌, ◌++◌,
  length, take, drop, flatten, take-append-drop, length-take, length-drop, length-append, ltb,
  arith, Option-cases, Bool-cases, inl, inr, ltb-false→le,
}
use whisky_scrapper_node.Sync.Tracks.{chunkify}
use whisky_scrapper_node.Sync.Tracks.Chunks.{chunkify_lem}
use whisky_scrapper_node.Llm.Policy.{LlmError, LlmErrorKind, classify, transport, halve, fatal}
use whisky_scrapper_node.Llm.Batch.{
  Event, handled, reported, progress, Provider, LlmRunState, attempt, take_batch, run_batches, run,
  call, wait_out_backoff, back_off, half_of, fuel_for, is_past, error, advance, Reason,
  out_of_budget, aborted_before,
}

pub kind-cases : (k : LlmErrorKind) → (k ≡ transport) ⊎ ((k ≡ halve) ⊎ (k ≡ fatal))
kind-cases transport = inl refl
kind-cases halve = inr (inl refl)
kind-cases fatal = inr (inr refl)

module _ {A : Type 0} where
  -- The items that were handled or reported, in the order of the events.
  abbrev pub settled : List (Event A) → List A
  settled [] = []
  settled (handled batch ∷ events) = batch ++ settled events
  settled (reported reason batch ∷ events) = batch ++ settled events
  settled (progress n total ∷ events) = settled events

  pub settled-append : (xs ys : List (Event A)) → settled (xs ++ ys) ≡ settled xs ++ settled ys
  settled-append [] ys = refl
  settled-append (handled batch ∷ xs) ys =
      ap (λ zs. batch ++ zs) (settled-append xs ys)
      ∙ sym (append_assoc batch (settled xs) (settled ys))
  settled-append (reported reason batch ∷ xs) ys =
      ap (λ zs. batch ++ zs) (settled-append xs ys)
      ∙ sym (append_assoc batch (settled xs) (settled ys))
  settled-append (progress n total ∷ xs) ys = settled-append xs ys

  settled-handled :
      (events : List (Event A)) (batch : List A)
      → settled (events ++ handled batch ∷ []) ≡ settled events ++ batch
  settled-handled events batch =
      settled-append events (handled batch ∷ [])
      ∙ ap (λ xs. settled events ++ xs) (append-nil batch)

  settled-reported :
      (events : List (Event A)) (reason : Reason) (batch : List A)
      → settled (events ++ reported reason batch ∷ []) ≡ settled events ++ batch
  settled-reported events reason batch =
      settled-append events (reported reason batch ∷ [])
      ∙ ap (λ xs. settled events ++ xs) (append-nil batch)

  settled-progress :
      (events : List (Event A)) (n total : ℕ)
      → settled (events ++ progress n total ∷ []) ≡ settled events
  settled-progress events n total =
      settled-append events (progress n total ∷ []) ∙ append-nil (settled events)

  module _ (provider : Provider A) where
    -- A batch was settled, each item once and in order, and the count of progress left alone.
    abbrev Result : LlmRunState A → LlmRunState A → List A → Type 0
    Result s s' batch =
        (settled s'.events ≡ settled s.events ++ batch) × (s'.done_items ≡ s.done_items)

    -- An attempt settles its batch.
    abbrev Settles : ℕ → ℕ → List A → Type 0
    Settles fuel retries batch =
        (s : LlmRunState A) → Result s (attempt provider fuel retries batch s) batch

    -- After a failure of transport: the batch again, if a retry is left.
    resent-Settles :
        (fuel retries : ℕ) (batch : List A) (s : LlmRunState A) (e : LlmError)
        → provider.answers s.calls batch ≡ some e
        → classify e ≡ transport
        → ((left : ℕ) → retries ≡ suc left → Settles fuel left batch)
        → Result s (attempt provider (suc fuel) retries batch s) batch
    unfolding attempt wait_out_backoff call back_off
    resent-Settles fuel zero batch s e h k again =
        rw (h, k, attempt) (settled-reported s.events (error e) batch, refl)
    resent-Settles fuel (suc left) batch s e h k again = rw (h, k, attempt) (again left refl _)

    -- The two halves of a batch, one after the other.
    halves-Settles :
        (fuel : ℕ) (batch : List A) (s : LlmRunState A)
        → ((half : List A) → 2 * length half + 2 ≤ fuel → Settles fuel 1 half)
        → 2 ≤ length batch
        → 2 * length batch ≤ fuel
        → Result s
            (attempt provider fuel 1
              (drop (half_of provider batch) batch)
              (attempt provider fuel 1 (take (half_of provider batch) batch) s))
            batch
    halves-Settles fuel batch s both two room =
        let half = half_of provider batch in
        let front = take half batch in
        let back = drop half batch in
        let (front_settled, front_done) = both front (omega (arith, length-take half batch)) s in
        let (back_settled, back_done) =
          both back (omega (arith, length-drop half batch)) (attempt provider fuel 1 front s) in
        (
          back_settled
              ∙ ap (λ xs. xs ++ back) front_settled
              ∙ append_assoc (settled s.events) front back
              ∙ ap (λ xs. settled s.events ++ xs) (take-append-drop half batch),
          back_done ∙ front_done,
        )

    attempt_step-Settles :
        (fuel retries : ℕ) (batch : List A) (s : LlmRunState A)
        → ((half : List A) → 2 * length half + 2 ≤ fuel → Settles fuel 1 half)
        → ((left : ℕ) → retries ≡ suc left → Settles fuel left batch)
        → 2 * length batch ≤ fuel
        → Result s (attempt provider (suc fuel) retries batch s) batch
    unfolding attempt wait_out_backoff call
    attempt_step-Settles fuel retries batch s both again room =
        elim (Option-cases (provider.answers s.calls batch)) [
          | inl h ↦ rw (h, attempt) (settled-handled s.events batch, refl)
          | inr (e, h) ↦ elim (kind-cases (classify e)) [
            | inr (inr k) ↦ rw (h, k, attempt) (settled-reported s.events (error e) batch, refl)
            | inl k ↦ resent-Settles fuel retries batch s e h k again
            | inr (inl k) ↦ elim (Bool-cases (ltb (length batch) 2)) [
              | inl small ↦
                  rw (h, k, small, attempt) (settled-reported s.events (error e) batch, refl)
              | inr large ↦
                  rw (h, k, large, attempt)
                    (halves-Settles fuel batch _ both (ltb-false→le (length batch) 2 large) room)
            ]
          ]
        ]

    -- With enough fuel, whatever the provider answers.
    attempt-Settles :
        (fuel retries : ℕ) (batch : List A)
        → 2 * length batch + retries + 1 ≤ fuel
        → retries ≤ 1
        → Settles fuel retries batch
    attempt-Settles zero retries batch enough few s = absurd (omega (arith, enough))
    attempt-Settles (suc fuel) retries batch enough few s =
        attempt_step-Settles fuel retries batch s
          (λ half room. attempt-Settles fuel 1 half (omega (arith, room)) (omega arith))
          (λ left e.
            attempt-Settles fuel left batch (omega (arith, enough, e)) (omega (arith, few, e)))
          (omega (arith, enough))

    take_batch-settled :
        (deadline : Option ℕ) (batch : List A) (s : LlmRunState A)
        → Result s (take_batch provider deadline batch s) batch
    unfolding take_batch
    take_batch-settled deadline batch s = elim (Bool-cases (is_past provider deadline s)) [
      | inl late ↦ rw (late, take_batch) (settled-reported s.events out_of_budget batch, refl)
      | inr early ↦ elim (Bool-cases s.aborted) [
        | inl stopped ↦
            rw (early, stopped, take_batch) (settled-reported s.events aborted_before batch, refl)
        | inr going ↦
            rw (early, going, take_batch)
              (attempt-Settles (fuel_for provider batch) 1 batch (omega arith) (omega arith) s)
      ]
    ]

    run_batches-settled :
        (deadline : Option ℕ) (total : ℕ) (batches : List (List A)) (s : LlmRunState A)
        → let s' = run_batches provider deadline total batches s in
          (settled s'.events ≡ settled s.events ++ flatten batches)
          × (s'.done_items ≡ s.done_items + length (flatten batches))
    unfolding run_batches
    run_batches-settled deadline total [] s = (sym (append-nil (settled s.events)), omega arith)
    run_batches-settled deadline total (batch ∷ batches) s =
        let (one, kept) = take_batch-settled deadline batch s in
        let s' = take_batch provider deadline batch s in
        let (rest, counted) =
          run_batches-settled deadline total batches (advance provider total batch s') in
        (
          rest
              ∙ ap (λ xs. xs ++ flatten batches)
                  (settled-progress s'.events (s'.done_items + length batch) total ∙ one)
              ∙ append_assoc (settled s.events) batch (flatten batches),
          omega (arith, counted, kept, length-append batch (flatten batches)),
        )

    -- One batch at a time, for a positive batch size, whatever the provider answers and whenever the
    -- deadline is: every
    -- item is handed to the handler with success or reported as failed, once and in its order, and
    -- the count of the items that are through ends at their number.
    pub run-settled :
        (deadline : Option ℕ) (batch_size : ℕ) (items : List A) (now : ℕ)
        → 0 < batch_size
        → let s = run provider deadline batch_size items now in
          (settled s.events ≡ items) × (s.done_items ≡ length items)
    unfolding run
    run-settled deadline batch_size items now h =
        let (all, counted) =
          run_batches-settled deadline (length items) (chunkify batch_size items) _ in
        let (whole, _) = chunkify_lem batch_size items h in
        (all ∙ whole, omega (arith, counted, ap length whole))
