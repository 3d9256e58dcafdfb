-- ===== src/Llm/Turns/Settled.antt =====
-- Every item is accounted for, however the loops take turns.
use whisky_scrapper_node.Prelude.{
  ℕ, zero, suc, ◌+◌, ◌-◌, ◌*◌, ◌/◌, ◌≤◌, ◌<◌, ◌≡◌, refl, ap, ◌∙◌, Option, none, some, Bool, true,
  false, List, [], ◌∷◌, ◌++◌, length, take, drop, filter, flatten, take-append-drop, length-take,
  length-drop, length-append, filter-append, ltb, max, arith, Bool-cases, inl, inr, ltb-false→le,
}
use whisky_scrapper_node.Sync.Tracks.{chunkify}
use whisky_scrapper_node.Sync.Tracks.Chunks.{chunkify_lem}
use whisky_scrapper_node.Llm.Policy.{LlmError, classify}
use whisky_scrapper_node.Llm.Pool.{pool_size}
use whisky_scrapper_node.Llm.Batch.{Event, reported, progress, out_of_budget, aborted_before}
use whisky_scrapper_node.Llm.Batch.Settled.{settled, settled-append, kind-cases}
use whisky_scrapper_node.Llm.Turns.{
  Loop, free, working, Run, Answered, answered, give_up, Turn, late, skips, takes, hears, ends,
  Turns, stay, turn, frees, started,
}

-- A sum over a list.
pub sum : {B : Type 0} → (B → ℕ) → List B → ℕ
sum f [] = 0
sum f (x ∷ xs) = f x + sum f xs

sum-append : {B : Type 0} (f : B → ℕ) (xs ys : List B) → sum f (xs ++ ys) ≡ sum f xs + sum f ys
unfolding sum
sum-append f [] ys = omega arith
sum-append f (x ∷ xs) ys = omega (arith, sum-append f xs ys)

module _ {A : Type 0} where
  -- How many items pass a test.
  abbrev pub passing : (A → Bool) → List A → ℕ
  passing p xs = length (filter p xs)

  passing-append :
      (p : A → Bool) (xs ys : List A) → passing p (xs ++ ys) ≡ passing p xs + passing p ys
  passing-append p xs ys =
      ap length (filter-append p xs ys) ∙ length-append (filter p xs) (filter p ys)

  abbrev to_send : (A → Bool) → ℕ × List A → ℕ
  to_send p a = passing p a.1

  abbrev held : (A → Bool) → Loop A → ℕ
  held p free = 0
  held p (working batch todo) = sum (to_send p) todo

  abbrev claimed : Loop A → ℕ
  claimed free = 0
  claimed (working batch todo) = length batch

  -- What is left to do, so that every turn takes some of it.
  abbrev effort : ℕ × List A → ℕ
  effort a = 6 * length a.1 - 4 + a.0 + 1

  abbrev loop_effort : Loop A → ℕ
  loop_effort free = 0
  loop_effort (working batch todo) = 1 + sum effort todo

  abbrev batch_effort : List A → ℕ
  batch_effort batch = 6 * length batch - 4 + 4

  abbrev pub run_effort : Run A → ℕ
  run_effort r = sum batch_effort r.queue + sum loop_effort r.loops

  -- After a failure of transport.
  resent :
      (p : A → Bool) (retries : ℕ) (sent : List A) (e : LlmError)
      → let a : Answered A = elim retries [
        | zero ↦ give_up e sent false
        | suc left ↦ record { again = (left, sent) ∷ []; seen = []; is_fatal = false }
      ] in
        (passing p (settled a.seen) + sum (to_send p) a.again ≡ passing p sent)
        × (sum effort a.again < effort (retries, sent))
  unfolding sum
  resent p zero sent e = (omega (arith, passing-append p sent []), omega arith)
  resent p (suc left) sent e = (omega arith, omega arith)

  -- An answer settles the items of an attempt or has them sent again, and takes some effort.
  answered_lem :
      (p : A → Bool) (retries : ℕ) (sent : List A) (answer : Option LlmError)
      → let a = answered retries sent answer in
        (passing p (settled a.seen) + sum (to_send p) a.again ≡ passing p sent)
        × (sum effort a.again < effort (retries, sent))
  unfolding answered sum
  answered_lem p retries sent none = (omega (arith, passing-append p sent []), omega arith)
  answered_lem p retries sent (some e) = elim (kind-cases (classify e)) [
    | inr (inr k) ↦ rw (k, answered) (omega (arith, passing-append p sent []), omega arith)
    | inl k ↦ rw (k, answered) (resent p retries sent e)
    | inr (inl k) ↦ elim (Bool-cases (ltb (length sent) 2)) [
      | inl small ↦ rw (k, small, answered) (omega (arith, passing-append p sent []), omega arith)
      | inr large ↦
          let half = (length sent + 1) / 2 in
          let two = ltb-false→le (length sent) 2 large in
          rw (k, large, answered)
            (
              omega (
                arith,
                passing-append p (take half sent) (drop half sent),
                ap (passing p) (take-append-drop half sent),
              ),
              omega (arith, two, length-take half sent, length-drop half sent),
            )
    ]
  ]

  passing-settled :
      (p : A → Bool) (xs ys : List (Event A))
      → passing p (settled (xs ++ ys)) ≡ passing p (settled xs) + passing p (settled ys)
  passing-settled p xs ys =
      ap (passing p) (settled-append xs ys) ∙ passing-append p (settled xs) (settled ys)

  -- A turn keeps the account of the items, and takes some effort.
  Turn_lem :
      (p : A → Bool) (total : ℕ) {r s : Run A}
      → Turn total r s
      → (passing p (settled s.events) + sum (held p) s.loops + sum (passing p) s.queue
          ≡ passing p (settled r.events) + sum (held p) r.loops + sum (passing p) r.queue)
        × (s.done_items + sum claimed s.loops + sum length s.queue
            ≡ r.done_items + sum claimed r.loops + sum length r.queue)
        × (run_effort s < run_effort r)
  unfolding sum
  Turn_lem p total (late {batch} {queue} {aborted} {done} {events} before after) = (
    omega (
      arith,
      passing-settled p events (reported out_of_budget batch ∷ []),
      sum-append (held p) before (working batch [] ∷ after),
      sum-append (held p) before (free ∷ after),
      passing-append p batch [],
    ),
    omega (
      arith,
      sum-append claimed before (working batch [] ∷ after),
      sum-append claimed before (free ∷ after),
    ),
    omega (
      arith,
      sum-append loop_effort before (working batch [] ∷ after),
      sum-append loop_effort before (free ∷ after),
      passing-append p batch [],
    ),
  )
  Turn_lem p total (skips {batch} {queue} {done} {events} before after) = (
    omega (
      arith,
      passing-settled p events (reported aborted_before batch ∷ []),
      sum-append (held p) before (working batch [] ∷ after),
      sum-append (held p) before (free ∷ after),
      passing-append p batch [],
    ),
    omega (
      arith,
      sum-append claimed before (working batch [] ∷ after),
      sum-append claimed before (free ∷ after),
    ),
    omega (
      arith,
      sum-append loop_effort before (working batch [] ∷ after),
      sum-append loop_effort before (free ∷ after),
      passing-append p batch [],
    ),
  )
  Turn_lem p total (takes {batch} {queue} {done} {events} before after) = (
    omega (
      arith,
      passing-settled p events ([]),
      sum-append (held p) before (working batch ((1, batch) ∷ []) ∷ after),
      sum-append (held p) before (free ∷ after),
    ),
    omega (
      arith,
      sum-append claimed before (working batch ((1, batch) ∷ []) ∷ after),
      sum-append claimed before (free ∷ after),
    ),
    omega (
      arith,
      sum-append loop_effort before (working batch ((1, batch) ∷ []) ∷ after),
      sum-append loop_effort before (free ∷ after),
    ),
  )
  Turn_lem p total
        (hears {queue} {aborted} {done} {events} before after batch retries sent rest answer) =
      let a = answered retries sent answer in
      let (kept, less) = answered_lem p retries sent answer in
      (
        omega (
          arith,
          passing-settled p events (a.seen),
          sum-append (held p) before (working batch (a.again ++ rest) ∷ after),
          sum-append (held p) before (working batch ((retries, sent) ∷ rest) ∷ after),
          sum-append (to_send p) a.again rest,
          sum-append effort a.again rest,
          kept,
          less,
        ),
        omega (
          arith,
          sum-append claimed before (working batch (a.again ++ rest) ∷ after),
          sum-append claimed before (working batch ((retries, sent) ∷ rest) ∷ after),
        ),
        omega (
          arith,
          sum-append loop_effort before (working batch (a.again ++ rest) ∷ after),
          sum-append loop_effort before (working batch ((retries, sent) ∷ rest) ∷ after),
          sum-append (to_send p) a.again rest,
          sum-append effort a.again rest,
          kept,
          less,
        ),
      )
  Turn_lem p total (ends {queue} {aborted} {done} {events} before after batch) = (
    omega (
      arith,
      passing-settled p events (progress (done + length batch) total ∷ []),
      sum-append (held p) before (free ∷ after),
      sum-append (held p) before (working batch [] ∷ after),
    ),
    omega (
      arith,
      sum-append claimed before (free ∷ after),
      sum-append claimed before (working batch [] ∷ after),
    ),
    omega (
      arith,
      sum-append loop_effort before (free ∷ after),
      sum-append loop_effort before (working batch [] ∷ after),
    ),
  )

  Turns_lem :
      (p : A → Bool) (total n : ℕ) {r s : Run A}
      → Turns total n r s
      → (passing p (settled s.events) + sum (held p) s.loops + sum (passing p) s.queue
          ≡ passing p (settled r.events) + sum (held p) r.loops + sum (passing p) r.queue)
        × (s.done_items + sum claimed s.loops + sum length s.queue
            ≡ r.done_items + sum claimed r.loops + sum length r.queue)
        × (n + run_effort s ≤ run_effort r)
  Turns_lem p total zero stay = (refl, refl, omega arith)
  Turns_lem p total (suc n) (turn turns last) =
      let (items, count, effort_) = Turns_lem p total n turns in
      let (item, one, less) = Turn_lem p total last in
      (item ∙ items, one ∙ count, omega (arith, less, effort_))

  sum-frees : (f : Loop A → ℕ) (n : ℕ) → f free ≡ 0 → sum f (frees n) ≡ 0
  unfolding sum
  sum-frees f zero h = refl
  sum-frees f (suc n) h = omega (arith, sum-frees f n h)

  sum-passing : (p : A → Bool) (xss : List (List A)) → sum (passing p) xss ≡ passing p (flatten xss)
  unfolding sum
  sum-passing p [] = refl
  sum-passing p (xs ∷ xss) = omega (arith, sum-passing p xss, passing-append p xs (flatten xss))

  sum-length : (xss : List (List A)) → sum length xss ≡ length (flatten xss)
  unfolding sum
  sum-length [] = refl
  sum-length (xs ∷ xss) = omega (arith, sum-length xss, length-append xs (flatten xss))

  -- No batch is left and every loop is free.
  abbrev pub Through : Run A → Type 0
  Through r = (r.queue ≡ []) × (n : ℕ) × (r.loops ≡ frees n)

  abbrev HasTurn : ℕ → Run A → Type 0
  HasTurn total r = (s : Run A) × Turn total r s

  -- With any concurrency and a positive batch size, whatever the provider answers, however the loops
  -- take turns and whenever the deadline passes: once no batch is left and every loop is free, every
  -- item was handed to the handler with success or reported as failed, as often as it stands in the
  -- list, and the count of the items that are through is their number.
  pub Turns-settled :
      (concurrency batch_size : ℕ) (items : List A) (n : ℕ) (r : Run A)
      → 0 < batch_size
      → Turns (length items) n (started concurrency batch_size items) r
      → Through r
      → ((p : A → Bool) → passing p (settled r.events) ≡ passing p items)
        × (r.done_items ≡ length items)
  unfolding started sum
  Turns-settled concurrency batch_size items n r positive turns (empty, k, idle_) =
      let batches = chunkify batch_size items in
      let size = pool_size (max 1 concurrency) (length batches) in
      let (whole, _) = chunkify_lem batch_size items positive in
      (
        λ p.
            let (account, _, _) = Turns_lem p (length items) n turns in
            omega (
              arith,
              account,
              ap (sum (passing p)) empty,
              ap (sum (held p)) idle_,
              sum-frees (held p) k refl,
              sum-frees (held p) size refl,
              sum-passing p batches,
              ap (passing p) whole,
            ),
        omega (
          arith,
          (Turns_lem (λ x. true) (length items) n turns).1,
          ap (sum length) empty,
          ap (sum claimed) idle_,
          sum-frees claimed k refl,
          sum-frees claimed size refl,
          sum-length batches,
          ap length whole,
        ),
      )
