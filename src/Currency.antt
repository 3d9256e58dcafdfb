-- ===== src/Currency.antt =====
-- The calendar and the gap filling of CurrencyUtils (utils/currency.util.ts). What the runtime knows
-- of dates and of the order of texts is a parameter.
pub mod Ordered
pub mod Series
mod Tests
use Prim.Native.Nat.{Ordering}
use whisky_scrapper_node.Prelude.{
  ℕ, zero, suc, String, ◌+◌, ◌-◌, ◌*◌, ◌/◌, ◌≤◌, ◌≡◌, Option, none, some, Bool, true, List, [], ◌∷◌,
  ◌++◌, map, if◌then◌else◌, ltb, length, sort, distinct,
}

-- A rate is counted in units of its last decimal.
pub record CurrencyRateInput : Type 0 where
  pub code : String
  pub rate : ℕ
  pub effective_on : String

abbrev pub ms_per_day : ℕ
ms_per_day = 86400000

-- Instants are milliseconds from a midnight before any day that is stored.
pub record Calendar : Type 0 where
  -- `ISO_DAY.test`
  pub iso_day : String → Bool
  -- `Date.parse` at midnight, when it answers a number.
  pub parse : String → Option ℕ
  -- `new Date(at).toISOString().slice(0, 10)`
  pub iso : ℕ → String
  -- `<` on texts
  pub before : String → String → Bool
  -- The last day whose year has four digits.
  pub last_day : ℕ
  pub iso_day-iso : (d : ℕ) → d ≤ last_day → iso_day (iso (d * ms_per_day)) ≡ true
  pub parse-iso : (d : ℕ) → d ≤ last_day → parse (iso (d * ms_per_day)) ≡ some (d * ms_per_day)
  pub before-iso :
      (a b : ℕ)
      → a ≤ last_day
      → b ≤ last_day
      → before (iso (a * ms_per_day)) (iso (b * ms_per_day)) ≡ ltb a b

module _ (calendar : Calendar) where
  open calendar use {iso_day, parse, iso, before}

  -- No day, where the source throws.
  unfoldable pub parse_day : String → Option ℕ
  parse_day day = if iso_day day then parse day else none

  -- Forwards.
  unfoldable pub shift_days : String → ℕ → Option String
  shift_days day delta = elim (parse_day day) [
    | none ↦ none
    | some at ↦ some (iso (at + delta * ms_per_day))
  ]

  -- 1 as well where the source answers a number below 1.
  unfoldable pub days_between : String → String → Option ℕ
  days_between from to = elim (parse_day from) [
    | none ↦ none
    | some start ↦ elim (parse_day to) [
      | none ↦ none
      | some end ↦ some ((end - start + ms_per_day / 2) / ms_per_day + 1)
    ]
  ]

  -- The copies for the days from an offset on.
  unfoldable pub copies : CurrencyRateInput → ℕ → ℕ → Option (List CurrencyRateInput)
  copies previous offset zero = some []
  copies previous offset (suc missing) =
      let rest = copies previous (suc offset) missing in
      elim (shift_days previous.effective_on (offset + 1)) [
        | none ↦ none
        | some day ↦ elim rest [
          | none ↦ none
          | some rates ↦
              some
                (record { code = previous.code; rate = previous.rate; effective_on = day } ∷ rates)
        ]
      ]

  unfoldable pub bridge : CurrencyRateInput → String → Option (List CurrencyRateInput)
  bridge previous next = elim (days_between previous.effective_on next) [
    | none ↦ none
    | some days ↦ copies previous 0 (days - 2)
  ]

  -- The `forEach` behind a rate.
  unfoldable pub fill_from :
      CurrencyRateInput → List CurrencyRateInput → Option (List CurrencyRateInput)
  fill_from previous [] = some []
  fill_from previous (rate ∷ rates) =
      let rest = fill_from rate rates in
      elim (bridge previous rate.effective_on) [
        | none ↦ none
        | some missing ↦ elim rest [ none ↦ none | some filled ↦ some (missing ++ rate ∷ filled) ]
      ]

  unfoldable pub fill_sorted : List CurrencyRateInput → Option (List CurrencyRateInput)
  fill_sorted [] = some []
  fill_sorted (rate ∷ rates) = elim (fill_from rate rates) [
    | none ↦ none
    | some filled ↦ some (rate ∷ filled)
  ]

  -- The comparison answers both ways alike where no day repeats.
  abbrev pub by_day : CurrencyRateInput → CurrencyRateInput → Ordering
  by_day left right =
      if before left.effective_on right.effective_on then Ordering.lt else Ordering.gt

  unfoldable pub fill_gaps : List CurrencyRateInput → Option (List CurrencyRateInput)
  fill_gaps rates =
      if ltb (length rates) 2
      then some rates
      else if ltb 1 (length (distinct (map (λ rate. rate.code) rates)))
      then none
      else fill_sorted (sort by_day rates)
