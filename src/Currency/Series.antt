-- ===== src/Currency/Series.antt =====
-- What a filled series is.
use Prim.Native.Nat.{Ordering}
use mathlib.Core.List.{Perm}
use mathlib.Core.List.Perm
use text.Mathlib.Text.{◌==◌ as str_eq}
use text.Mathlib.TextEquality.{eq_iff}
use whisky_scrapper_node.Prelude.{
  ℕ, zero, suc, String, ◌+◌, ◌-◌, ◌*◌, ◌≤◌, ◌≡◌, none, some, false, List, [], ◌∷◌, not, filter,
  ◌++◌, map, if◌then◌else◌, ltb, length, sort, distinct, ◌<◌, sort-perm, sort-map, sort-All, All,
  arith, refl, ap, ◌∙◌, sym,
}
use whisky_scrapper_node.Currency.Ordered.{Entry, by_number, Dated, sort-Dated}
use whisky_scrapper_node.Currency.{
  CurrencyRateInput, ms_per_day, Calendar, parse_day, shift_days, days_between, copies, bridge,
  fill_from, fill_sorted, by_day, fill_gaps,
}

-- The copies of an entry for the days from an offset on.
abbrev copied : Entry → ℕ → ℕ → List Entry
copied e offset zero = []
copied e offset (suc n) = (e.0 + (offset + 1), e.1) ∷ copied e (suc offset) n

abbrev filled_from : Entry → List Entry → List Entry
filled_from e [] = []
filled_from e (f ∷ fs) = copied e 0 (f.0 - e.0 - 1) ++ f ∷ filled_from f fs

module _ (calendar : Calendar) (code : String) where
  -- The row of an entry.
  abbrev pub row : Entry → CurrencyRateInput
  row e = record { code = code; rate = e.1; effective_on = calendar.iso (e.0 * ms_per_day) }

  parse_day-iso :
      (d : ℕ)
      → d ≤ calendar.last_day
      → parse_day calendar (calendar.iso (d * ms_per_day)) ≡ some (d * ms_per_day)
  unfolding parse_day
  parse_day-iso d h = rw (calendar.iso_day-iso d h) (calendar.parse-iso d h)

  shift_days-iso :
      (d n : ℕ)
      → d ≤ calendar.last_day
      → shift_days calendar (calendar.iso (d * ms_per_day)) n
        ≡ some (calendar.iso ((d + n) * ms_per_day))
  unfolding shift_days
  shift_days-iso d n h =
      rw (parse_day-iso d h, shift_days) (ap (λ at. some (calendar.iso at)) (omega arith))

  days_between-iso :
      (a b : ℕ)
      → a ≤ calendar.last_day
      → b ≤ calendar.last_day
      → days_between calendar (calendar.iso (a * ms_per_day)) (calendar.iso (b * ms_per_day))
        ≡ some (b - a + 1)
  unfolding days_between
  days_between-iso a b h k =
      rw (parse_day-iso a h, days_between) (rw (parse_day-iso b k) (ap some (omega arith)))

  copies-copied :
      (e : Entry) (offset n : ℕ)
      → e.0 ≤ calendar.last_day
      → copies calendar (row e) offset n ≡ some (map row (copied e offset n))
  unfolding copies
  copies-copied e offset zero h = refl
  copies-copied e offset (suc n) h =
      rw (shift_days-iso e.0 (offset + 1) h, copies) (rw (copies-copied e (suc offset) n h) refl)

  bridge-copied :
      (e f : Entry)
      → e.0 ≤ calendar.last_day
      → f.0 ≤ calendar.last_day
      → bridge calendar (row e) (calendar.iso (f.0 * ms_per_day))
        ≡ some (map row (copied e 0 (f.0 - e.0 - 1)))
  unfolding bridge
  bridge-copied e f h k =
      rw (days_between-iso e.0 f.0 h k, bridge)
        (copies-copied e 0 (f.0 - e.0 + 1 - 2) h
          ∙ ap (λ n. some (map row (copied e 0 n))) (omega arith))

  map_row-append : (xs ys : List Entry) → map row (xs ++ ys) ≡ map row xs ++ map row ys
  map_row-append [] ys = refl
  map_row-append (x ∷ xs) ys = ap (λ zs. row x ∷ zs) (map_row-append xs ys)

  fill_from-filled_from :
      (e : Entry) (fs : List Entry)
      → e.0 ≤ calendar.last_day
      → All (λ f. f.0 ≤ calendar.last_day) fs
      → fill_from calendar (row e) (map row fs) ≡ some (map row (filled_from e fs))
  unfolding fill_from
  fill_from-filled_from e [] h hs = refl
  fill_from-filled_from e (f ∷ fs) h hs =
      rw (bridge-copied e f h hs.0, fill_from)
        (rw (fill_from-filled_from f fs hs.0 hs.1)
          (ap some (sym (map_row-append (copied e 0 (f.0 - e.0 - 1)) (f ∷ filled_from f fs)))))

  distinct-one :
      (e : Entry) (es : List Entry)
      → distinct (map (λ rate. rate.code) (map row (e ∷ es))) ≡ code ∷ []
  unfolding distinct
  distinct-one e [] = refl
  distinct-one e (f ∷ es) =
      ap (λ codes. code ∷ filter (λ y. not (str_eq code y)) codes) (distinct-one f es)
      ∙ ground (arith, eq_iff code code)

-- What follows an entry, day by day, up to the last of the published entries.
pub data Follows : Entry → List Entry → List Entry → Type 0 where
  ended : {e : Entry} → Follows e [] []
  published :
      {e f : Entry} {fs xs : List Entry}
      → e.0 ≤ f.0
      → f.0 ≤ e.0 + 1
      → Follows f fs xs
      → Follows e (f ∷ fs) (f ∷ xs)
  carried :
      {e x f : Entry} {fs xs : List Entry}
      → x.0 ≡ e.0 + 1
      → x.1 ≡ e.1
      → x.0 < f.0
      → Follows x (f ∷ fs) xs
      → Follows e (f ∷ fs) (x ∷ xs)

copied-Follows :
    (e c f : Entry) (fs xs : List Entry) (offset n : ℕ)
    → c.0 ≡ e.0 + offset
    → c.1 ≡ e.1
    → c.0 ≤ f.0
    → n ≡ f.0 - c.0 - 1
    → Follows f fs xs
    → Follows c (f ∷ fs) (copied e offset n ++ f ∷ xs)
copied-Follows e c f fs xs offset zero day rate le gap h = published le (omega arith) h
copied-Follows e c f fs xs offset (suc n) day rate le gap h =
    carried (omega arith) (sym rate) (omega arith) (
      copied-Follows e (e.0 + (offset + 1), e.1) f fs xs (suc offset) n (omega arith) refl
        (omega arith) (omega arith) h)

filled_from-Follows :
    (e : Entry) (fs : List Entry) → Dated (e ∷ fs) → Follows e fs (filled_from e fs)
filled_from-Follows e [] h = ended
filled_from-Follows e (f ∷ fs) h =
    copied-Follows e e f fs (filled_from f fs) 0 (f.0 - e.0 - 1) (omega arith) refl h.0 refl
      (filled_from-Follows f fs h.1)

abbrev filled_of : List Entry → List Entry
filled_of [] = []
filled_of (e ∷ es) = e ∷ filled_from e es

-- The first entry, then what follows it; nothing where nothing is published.
abbrev pub IsFilled : List Entry → List Entry → Type 0
IsFilled [] xs = xs ≡ []
IsFilled (e ∷ es) xs = (rest : List Entry) × (xs ≡ e ∷ rest) × Follows e es rest

filled_of-IsFilled : (es : List Entry) → Dated es → IsFilled es (filled_of es)
filled_of-IsFilled [] h = refl
filled_of-IsFilled (e ∷ es) h = (filled_from e es, refl, filled_from-Follows e es h)

module _ (calendar : Calendar) (code : String) where
  fill_sorted-filled_of :
      (es : List Entry)
      → All (λ e. e.0 ≤ calendar.last_day) es
      → fill_sorted calendar (map (row calendar code) es)
        ≡ some (map (row calendar code) (filled_of es))
  unfolding fill_sorted
  fill_sorted-filled_of [] h = refl
  fill_sorted-filled_of (e ∷ es) h =
      rw (fill_from-filled_from calendar code e es h.0 h.1, fill_sorted) refl

  sort-by_day :
      (es : List Entry)
      → All (λ e. e.0 ≤ calendar.last_day) es
      → sort (by_day calendar) (map (row calendar code) es)
        ≡ map (row calendar code) (sort by_number es)
  sort-by_day es h =
      sort-map (row calendar code) by_number (by_day calendar) (λ e. e.0 ≤ calendar.last_day)
        (λ e f he hf.
          ap (λ b. if b then Ordering.lt else Ordering.gt) (calendar.before-iso e.0 f.0 he hf))
        es h

  fill_gaps-sorted :
      (e f : Entry) (es : List Entry)
      → fill_gaps calendar (map (row calendar code) (e ∷ f ∷ es))
        ≡ fill_sorted calendar (sort (by_day calendar) (map (row calendar code) (e ∷ f ∷ es)))
  unfolding fill_gaps
  fill_gaps-sorted e f es =
      rw (long (length (map (row calendar code) es)), fill_gaps)
        (ap
          (λ codes.
            if ltb 1 (length codes)
            then none
            else fill_sorted calendar
                (sort (by_day calendar) (map (row calendar code) (e ∷ f ∷ es))))
          (distinct-one calendar code e (f ∷ es)))
    where
      long : (n : ℕ) → ltb (suc (suc n)) 2 ≡ false
      long n = ground arith

  -- The rates of one currency, on days whose year has four digits, are put in the order of their
  -- days, none lost or added, and filled: the filled series starts with the first rate, goes on by a
  -- day at most, holds every rate that was published in its place, and carries a rate to the next
  -- day only where the next published rate lies behind that day. Nothing follows the last rate.
  pub fill_gaps_lem :
      (entries : List Entry)
      → All (λ e. e.0 ≤ calendar.last_day) entries
      → (ordered : List Entry) × (filled : List Entry) × Perm ordered entries
        × (fill_gaps calendar (map (row calendar code) entries)
            ≡ some (map (row calendar code) filled))
        × IsFilled ordered filled
  unfolding fill_gaps
  fill_gaps_lem [] h = ([], [], Perm.refl [], refl, refl)
  fill_gaps_lem (e ∷ []) h = (e ∷ [], e ∷ [], Perm.refl (e ∷ []), refl, ([], refl, ended))
  fill_gaps_lem (e ∷ f ∷ es) h =
      let ordered = sort by_number (e ∷ f ∷ es) in
      (
        ordered,
        filled_of ordered,
        sort-perm by_number (e ∷ f ∷ es),
        fill_gaps-sorted e f es
            ∙ ap (fill_sorted calendar) (sort-by_day (e ∷ f ∷ es) h)
            ∙ fill_sorted-filled_of ordered
                (sort-All (λ d. d.0 ≤ calendar.last_day) by_number (e ∷ f ∷ es) h),
        filled_of-IsFilled ordered (sort-Dated (e ∷ f ∷ es)),
      )
