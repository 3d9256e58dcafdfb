-- ===== src/Report/Build.antt =====
-- The five reports (domain/report/report.service.ts). What the repositories answer is a parameter:
-- the extremes of the prices since a date, the date since which a price holds, the latest snapshot.
-- The tolerance of 1e-9 that `low` allows is less than the smallest unit of a price.
pub mod Led
mod Tests
use Prim.Native.Nat.{compare, Ordering}
use text.Mathlib.Text.{◌==◌ as str_eq}
use whisky_scrapper_node.Prelude.{
  ℕ, String, ◌+◌, ◌-◌, ◌*◌, max, Option, none, some, Bool, true, false, ◌&&◌, ◌==◌, List, [], ◌∷◌,
  ◌++◌, map, if◌then◌else◌, ltb, leb, filter, any, length, sort, or_then, group_by, each_group,
}
use whisky_scrapper_node.Report.Request.{
  ReportKind, best, catalog, drops, low, new, ReportWindow, today, yesterday, week, month, year,
  ReportOptions, ReportFilter,
}
use whisky_scrapper_node.Report.Offers.{
  ReportCurrentRow, Days, past, ahead, ReportRow, ReportOffer, ReportGroup, to_offer, to_group,
  previous_drop, Runtime, by_price, rows_by_price, enrich, group_offers, wrap_offers,
  apply_min_discount,
}

-- WINDOW_DAYS
abbrev pub window_days : ReportWindow → ℕ
window_days today = 1
window_days yesterday = 2
window_days week = 7
window_days month = 30
window_days year = 365

-- NEW_DAYS
abbrev pub new_span : ℕ
new_span = 7

-- The bounds that the current rows are selected with.
unfoldable pub selection_filter : ReportKind → ReportFilter → ReportFilter
selection_filter best filter = record filter { min_price = none; max_price = none }
selection_filter catalog filter = filter
selection_filter drops filter = filter
selection_filter low filter = filter
selection_filter new filter = filter

unfoldable pub days_between : ℕ → ℕ → Days
days_between from to = if leb from to then past (to - from) else ahead (from - to - 1)

abbrev pub compare_days : Days → Days → Ordering
compare_days (past a) (past b) = compare a b
compare_days (past a) (ahead b) = Ordering.gt
compare_days (ahead a) (past b) = Ordering.lt
compare_days (ahead a) (ahead b) = compare b a

abbrev pub is_days : ℕ → Option Days → Bool
is_days n (some (past m)) = m == n
is_days n (some (ahead m)) = false
is_days n none = false

unfoldable pub matches_day_window : Option Days → Option ReportWindow → Bool
matches_day_window days (some today) = is_days 0 days
matches_day_window days (some yesterday) = is_days 1 days
matches_day_window days (some week) = true
matches_day_window days (some month) = true
matches_day_window days (some year) = true
matches_day_window days none = true

-- The latest capture of the rows, from a date on.
abbrev pub latest_capture : ℕ → List ReportCurrentRow → ℕ
latest_capture latest [] = latest
latest_capture latest (row ∷ rows) = latest_capture (max row.captured_date latest) rows

-- There are rows where it is called; dates are far from the first day.
unfoldable pub cutoff : List ReportCurrentRow → ℕ → ℕ
cutoff current days = latest_capture 0 current - days

unfoldable pub reference_price : ReportCurrentRow → Option ℕ → Option ℕ
reference_price row none = none
reference_price row (some window_max) = if ltb row.price window_max then some window_max else none

unfoldable pub within_price_bounds : ℕ → ReportFilter → Bool
within_price_bounds price filter =
    (elim filter.min_price [ none ↦ true | some min ↦ leb min price ])
    && (elim filter.max_price [ none ↦ true | some max ↦ leb price max ])

-- How many different stores: the size of the set of their slugs.
unfoldable pub store_count : List ReportCurrentRow → ℕ
store_count [] = 0
store_count (row ∷ rows) =
    let count = store_count rows in
    if any (λ other. str_eq other.store_slug row.store_slug) rows then count else count + 1

-- What the repositories of prices answer.
pub record Prices : Type 0 where
  pub extremes_min : ℕ → String → Option ℕ
  pub extremes_max : ℕ → String → Option ℕ
  pub price_since : String → Option ℕ

module _ (runtime : Runtime) where
  open runtime.collation use {locale_compare, to_lower_case}

  abbrev pub named : ReportGroup → String
  named g = elim g.primary.row.name [ none ↦ g.primary.row.name_orig | some name ↦ name ]

  abbrev pub by_name : ReportGroup → ReportGroup → Ordering
  by_name a b = or_then (locale_compare (to_lower_case (named a)) (to_lower_case (named b))) (
      or_then (compare a.primary.row.price b.primary.row.price)
        (locale_compare a.primary.row.id b.primary.row.id))

  abbrev pub discount_of : ReportRow → ℕ
  discount_of r = elim r.discount_pct [ none ↦ 0 | some pct ↦ pct ]

  -- The larger discount first.
  abbrev pub by_discount : ReportGroup → ReportGroup → Ordering
  by_discount a b =
      or_then (compare (discount_of b.primary) (discount_of a.primary))
        (locale_compare a.primary.row.id b.primary.row.id)

  abbrev pub age_of : ReportRow → Days
  age_of r = elim r.days_new [ none ↦ past 0 | some days ↦ days ]

  abbrev pub by_age : ReportGroup → ReportGroup → Ordering
  by_age a b = or_then (compare_days (age_of a.primary) (age_of b.primary)) (
      or_then (compare a.primary.row.price b.primary.row.price)
        (locale_compare a.primary.row.id b.primary.row.id))

  abbrev pub as_listed : ReportCurrentRow → ReportRow
  as_listed row = enrich runtime row (previous_drop row) false none none

  unfoldable pub catalog_groups : List ReportCurrentRow → List ReportGroup
  catalog_groups current = sort by_name (group_offers runtime (map as_listed current))

  unfoldable pub drops_groups :
      Prices → ℕ → List ReportCurrentRow → ReportOptions → List ReportGroup
  drops_groups prices now current options =
      let since = cutoff current (window_days options.window) in
      let enriched =
        map
          (λ row.
            enrich runtime row (reference_price row (prices.extremes_max since row.id)) false none
              (elim (prices.price_since row.id) [
                | none ↦ none
                | some day ↦ some (days_between day now)
              ]))
          current in
      let rows =
        filter
          (λ r.
            (elim r.discount_pct [ none ↦ false | some pct ↦ true ])
            && matches_day_window r.days_discount options.discount_window)
          enriched in
      sort by_discount (
        group_offers runtime
          (apply_min_discount runtime (λ r. r.discount_pct) options.min_discount rows))

  unfoldable pub low_groups : Prices → List ReportCurrentRow → ReportOptions → List ReportGroup
  low_groups prices current options =
      let since = cutoff current (window_days options.window) in
      let lowest =
        filter
          (λ row. elim (prices.extremes_min since row.id) [
            | none ↦ false
            | some min ↦ leb row.price min
          ])
          current in
      let enriched = map (λ row. enrich runtime row row.previous_price false none none) lowest in
      let rows = filter (λ r. elim r.discount_pct [ none ↦ false | some pct ↦ true ]) enriched in
      sort by_discount (
        wrap_offers runtime
          (apply_min_discount runtime (λ r. r.discount_pct) options.min_discount rows))

  unfoldable pub newest_groups : List ReportCurrentRow → ℕ → ReportWindow → List ReportGroup
  newest_groups current now window =
      let since = now - (new_span - 1) in
      let recent = filter (λ row. leb since row.first_seen) current in
      let enriched =
        map (λ row. enrich runtime row none true (some (days_between row.first_seen now)) none)
          recent in
      let rows = filter (λ r. matches_day_window r.days_new (some window)) enriched in
      sort by_age (group_offers runtime rows)

  -- The winner of the rows in their order; BEST_MERGE_GUARD is one half.
  unfoldable pub winner_of : List ReportCurrentRow → Option ReportRow
  winner_of [] = none
  winner_of (top ∷ []) = none
  winner_of (top ∷ runner_up ∷ rest) =
      if ltb (2 * top.price) runner_up.price
      then none
      else some (enrich runtime top (some runner_up.price) false none none)

  -- BEST_MIN_STORES is 2.
  unfoldable pub best_of_group : List ReportCurrentRow → Option ReportRow
  best_of_group group =
      if ltb (store_count group) 2 then none else winner_of (sort (by_price runtime) group)

  abbrev pub as_best : ReportRow → ReportCurrentRow → ReportRow
  as_best winner row = if str_eq row.id winner.row.id then winner else as_listed row

  unfoldable pub best_offers : List ReportCurrentRow → ReportRow → List ReportOffer
  best_offers group winner =
      map to_offer (sort (rows_by_price runtime) (map (as_best winner) group))

  -- One product of `best`: its group, if it has a winner within the bounds.
  unfoldable pub best_group : ReportFilter → List ReportCurrentRow → List ReportGroup
  best_group filter group = elim (best_of_group group) [
    | none ↦ []
    | some winner ↦
        if within_price_bounds winner.row.price filter
        then to_group winner (best_offers group winner) ∷ []
        else []
  ]

  abbrev pub best_each : ReportFilter → List (String × List ReportCurrentRow) → List ReportGroup
  best_each filter groups = each_group (best_group filter) groups

  unfoldable pub best_groups :
      List ReportCurrentRow → ReportFilter → ReportOptions → List ReportGroup
  best_groups current filter options = sort by_discount (
      apply_min_discount runtime (λ g. g.primary.discount_pct) options.min_discount
        (best_each filter (group_by (λ row. row.product_id) current)))

  -- The `switch` of `buildGroups`.
  unfoldable pub build_kind :
      Prices
      → ℕ
      → ReportKind
      → ReportFilter
      → ReportOptions
      → List ReportCurrentRow
      → List ReportGroup
  build_kind prices now catalog filter options current = catalog_groups current
  build_kind prices now drops filter options current = drops_groups prices now current options
  build_kind prices now low filter options current = low_groups prices current options
  build_kind prices now new filter options current = newest_groups current now options.window
  build_kind prices now best filter options current = best_groups current filter options

  -- `buildGroups`, with the answers for the current rows and for the latest snapshot.
  unfoldable pub build_groups :
      Prices
      → ℕ
      → Option ℕ
      → ReportKind
      → ReportFilter
      → ReportOptions
      → (ReportFilter → List ReportCurrentRow)
      → List ReportGroup
  build_groups prices now none kind filter options find_current_rows = []
  build_groups prices now (some latest) kind filter options find_current_rows =
      let current = find_current_rows (selection_filter kind filter) in
      if length current == 0 then [] else build_kind prices now kind filter options current
