-- ===== src/Currency/Tests.antt =====
-- Filling concrete series, on a calendar that writes a day as its number of strokes.
use mathlib.Core.List.{Perm}
use whisky_scrapper_node.Prelude.{
  ℕ, zero, suc, String, ◌*◌, ◌/◌, ◌≡◌, refl, ap, ◌∙◌, some, none, true, List, [], ◌∷◌, map, ltb,
  arith, distinct, sort, insert_sorted,
}
use whisky_scrapper_node.Currency.{
  CurrencyRateInput, ms_per_day, Calendar, fill_gaps, fill_sorted, fill_from, bridge, days_between,
  parse_day, copies, shift_days,
}
use whisky_scrapper_node.Currency.Ordered.{Entry}
use whisky_scrapper_node.Currency.Series.{row, IsFilled, fill_gaps_lem}

abbrev strokes : ℕ → String
strokes zero = ""
strokes (suc n) = String.◌∷◌ "1" (strokes n)

abbrev count : String → ℕ
count String.[] = 0
count (String.◌∷◌ c s) = suc (count s)

count-strokes : (n : ℕ) → count (strokes n) ≡ n
count-strokes zero = refl
count-strokes (suc n) = ap suc (count-strokes n)

count-iso : (d : ℕ) → count (strokes (d * ms_per_day / ms_per_day)) ≡ d
count-iso d = count-strokes (d * ms_per_day / ms_per_day) ∙ omega arith

abbrev stroke_calendar : Calendar
stroke_calendar = record {
  iso_day = λ day. true;
  parse = λ day. some (count day * ms_per_day);
  iso = λ at. strokes (at / ms_per_day);
  before = λ a b. ltb (count a) (count b);
  last_day = 1000;
  iso_day-iso = λ d h. refl;
  parse-iso = λ d h. ap (λ n. some (n * ms_per_day)) (count-iso d);
  before-iso = λ a b h k.
      ap (λ n. ltb n (count (strokes (b * ms_per_day / ms_per_day)))) (count-iso a)
      ∙ ap (ltb a) (count-iso b);
}

abbrev dollar : Entry → CurrencyRateInput
dollar = row stroke_calendar "USD"

-- Two days are missing, and the rates come in no order.
abbrev fetched : List Entry
fetched = (5, 41) ∷ (2, 40) ∷ (6, 42) ∷ []

fill_gaps-fetched :
    fill_gaps stroke_calendar (map dollar fetched)
    ≡ some (map dollar ((2, 40) ∷ (3, 40) ∷ (4, 40) ∷ (5, 41) ∷ (6, 42) ∷ []))
unfolding fill_gaps distinct fill_sorted sort insert_sorted fill_from bridge days_between parse_day
    copies shift_days
fill_gaps-fetched = refl

mixed_fill_gaps :
    fill_gaps stroke_calendar (dollar (2, 40) ∷ row stroke_calendar "EUR" (3, 45) ∷ []) ≡ none
unfolding fill_gaps distinct
mixed_fill_gaps = refl

fill_gaps_lem_example :
    (ordered : List Entry) × (filled : List Entry) × Perm ordered fetched
    × (fill_gaps stroke_calendar (map dollar fetched) ≡ some (map dollar filled))
    × IsFilled ordered filled
fill_gaps_lem_example =
    fill_gaps_lem stroke_calendar "USD" fetched (omega arith, (omega arith, (omega arith, tt)))
