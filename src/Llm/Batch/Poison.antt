-- ===== src/Llm/Batch/Poison.antt =====
-- Items that the provider answers badly.
use mathlib.Core.List.{append-nil, append_assoc}
use whisky_scrapper_node.Prelude.{
  ℕ, zero, suc, ◌+◌, ◌*◌, ◌≤◌, ◌<◌, ◌≡◌, refl, sym, ap, ◌∙◌, none, some, Bool, true, false, List,
  [], ◌∷◌, ◌++◌, length, take, drop, flatten, any, filter, filter-append, take-append-drop,
  length-take, length-drop, ltb, arith, Bool-cases, inl, inr, ltb-false→le, ltb→lt, if◌then◌else◌,
}
use whisky_scrapper_node.Sync.Tracks.{chunkify}
use whisky_scrapper_node.Sync.Tracks.Chunks.{chunkify_lem}
use whisky_scrapper_node.Llm.Policy.{LlmError, classify, halve}
use whisky_scrapper_node.Llm.Batch.{
  Event, handled, reported, progress, Provider, LlmRunState, attempt, take_batch, run_batches, run,
  call, wait_out_backoff, half_of, fuel_for, is_past, error, advance, Reason, emit, aborted_before,
}

module _ {A : Type 0} where
  -- The items that were reported as failed, in the order of the events.
  abbrev pub lost : List (Event A) → List A
  lost [] = []
  lost (handled batch ∷ events) = lost events
  lost (reported reason batch ∷ events) = batch ++ lost events
  lost (progress n total ∷ events) = lost events

  lost-append : (xs ys : List (Event A)) → lost (xs ++ ys) ≡ lost xs ++ lost ys
  lost-append [] ys = refl
  lost-append (handled batch ∷ xs) ys = lost-append xs ys
  lost-append (reported reason batch ∷ xs) ys =
      ap (λ zs. batch ++ zs) (lost-append xs ys) ∙ sym (append_assoc batch (lost xs) (lost ys))
  lost-append (progress n total ∷ xs) ys = lost-append xs ys

  lost-reported :
      (events : List (Event A)) (reason : Reason) (batch : List A)
      → lost (events ++ reported reason batch ∷ []) ≡ lost events ++ batch
  lost-reported events reason batch =
      lost-append events (reported reason batch ∷ [])
      ∙ ap (λ xs. lost events ++ xs) (append-nil batch)

  filter-none : (p : A → Bool) (xs : List A) → any p xs ≡ false → filter p xs ≡ []
  filter-none p [] h = refl
  filter-none p (x ∷ xs) h = ground (arith, filter-none p xs)

  filter-one : (p : A → Bool) (xs : List A) → any p xs ≡ true → length xs < 2 → filter p xs ≡ xs
  filter-one p [] h small = refl
  filter-one p (x ∷ []) h small = ground arith
  filter-one p (x ∷ y ∷ xs) h small = absurd (omega (arith, small))

  -- A provider that answers a batch badly exactly if it has a bad item.
  module _ (provider : Provider A) (bad : A → Bool) (e : LlmError) where
    -- The bad items of a batch were lost and no others, and the run goes on.
    abbrev Result : LlmRunState A → LlmRunState A → List A → Type 0
    Result s s' batch =
        (lost s'.events ≡ lost s.events ++ filter bad batch) × (s'.aborted ≡ s.aborted)

    halves-Result :
        (fuel : ℕ) (batch : List A) (s : LlmRunState A)
        → ((half : List A) (s' : LlmRunState A)
            → 2 * length half + 2 ≤ fuel
            → Result s' (attempt provider fuel 1 half s') half)
        → 2 ≤ length batch
        → 2 * length batch ≤ fuel
        → Result s
            (attempt provider fuel 1
              (drop (half_of provider batch) batch)
              (attempt provider fuel 1 (take (half_of provider batch) batch) s))
            batch
    halves-Result fuel batch s both two room =
        let half = half_of provider batch in
        let front = take half batch in
        let back = drop half batch in
        let (front_lost, front_goes) = both front s (omega (arith, length-take half batch)) in
        let (back_lost, back_goes) =
          both back (attempt provider fuel 1 front s) (omega (arith, length-drop half batch)) in
        (
          back_lost
              ∙ ap (λ xs. xs ++ filter bad back) front_lost
              ∙ append_assoc (lost s.events) (filter bad front) (filter bad back)
              ∙ ap (λ xs. lost s.events ++ xs) (sym (filter-append bad front back))
              ∙ ap (λ xs. lost s.events ++ filter bad xs) (take-append-drop half batch),
          back_goes ∙ front_goes,
        )

    attempt-Result :
        classify e ≡ halve
        → ((n : ℕ) (batch : List A)
            → provider.answers n batch ≡ (if any bad batch then some e else none))
        → (fuel : ℕ) (batch : List A) (s : LlmRunState A) → 2 * length batch + 2 ≤ fuel
        → Result s (attempt provider fuel 1 batch s) batch
    unfolding attempt wait_out_backoff call
    attempt-Result k judges zero batch s enough = absurd (omega (arith, enough))
    attempt-Result k judges (suc fuel) batch s enough = elim (Bool-cases (any bad batch)) [
      | inr fine ↦
          let h = judges s.calls batch ∙ ap (λ b. if b then some e else none) fine in
          rw (h, attempt)
            (
              lost-append s.events (handled batch ∷ [])
                  ∙ ap (λ xs. lost s.events ++ xs) (sym (filter-none bad batch fine)),
              refl,
            )
      | inl spoilt ↦
          let h = judges s.calls batch ∙ ap (λ b. if b then some e else none) spoilt in
          elim (Bool-cases (ltb (length batch) 2)) [
            | inl small ↦
                rw (h, k, small, attempt)
                  (
                    lost-reported s.events (error e) batch
                        ∙ ap (λ xs. lost s.events ++ xs)
                            (sym (filter-one bad batch spoilt (ltb→lt (length batch) 2 small))),
                    refl,
                  )
            | inr large ↦
                rw (h, k, large, attempt)
                  (halves-Result fuel batch _
                    (λ half s' room. attempt-Result k judges fuel half s' room)
                    (ltb-false→le (length batch) 2 large) (omega (arith, enough)))
          ]
    ]

    run_batches-lost :
        classify e ≡ halve
        → ((n : ℕ) (batch : List A)
            → provider.answers n batch ≡ (if any bad batch then some e else none))
        → (total : ℕ) (batches : List (List A)) (s : LlmRunState A) → s.aborted ≡ false
        → lost (run_batches provider none total batches s).events
          ≡ lost s.events ++ filter bad (flatten batches)
    unfolding run_batches take_batch is_past
    run_batches-lost k judges total [] s going = sym (append-nil (lost s.events))
    run_batches-lost k judges total (batch ∷ batches) s going =
        let s' = attempt provider (fuel_for provider batch) 1 batch s in
        let (one, goes) = attempt-Result k judges (fuel_for provider batch) batch s (omega arith) in
        let taken : take_batch provider none batch s ≡ s' =
          ap
            (λ b. elim b as (λ x. LlmRunState A) [
              | true ↦ emit provider (reported aborted_before batch) s
              | false ↦ s'
            ])
            going in
        ap
          (λ x.
            lost (run_batches provider none total batches (advance provider total batch x)).events)
          taken
        ∙ run_batches-lost k judges total batches (advance provider total batch s') (goes ∙ going)
        ∙ ap (λ xs. xs ++ filter bad (flatten batches))
            (lost-append s'.events (progress (s'.done_items + length batch) total ∷ [])
              ∙ append-nil (lost s'.events)
              ∙ one)
        ∙ append_assoc (lost s.events) (filter bad batch) (filter bad (flatten batches))
        ∙ ap (λ xs. lost s.events ++ xs) (sym (filter-append bad batch (flatten batches)))

    -- A provider that answers a batch badly exactly if it holds a bad item, with an error that is
    -- neither fatal nor of transport: without a deadline and for a positive batch size, the run
    -- loses the bad items and no others.
    pub run-lost :
        classify e ≡ halve
        → ((n : ℕ) (batch : List A)
            → provider.answers n batch ≡ (if any bad batch then some e else none))
        → (batch_size : ℕ) (items : List A) (now : ℕ) → 0 < batch_size
        → lost (run provider none batch_size items now).events ≡ filter bad items
    unfolding run
    run-lost k judges batch_size items now h =
        run_batches-lost k judges (length items) (chunkify batch_size items) _ refl
        ∙ ap (filter bad) (chunkify_lem batch_size items h).0
