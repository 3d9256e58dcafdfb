-- ===== src/Report/Build/Led.antt =====
-- Every group of every report is led by its cheapest offer.
use Prim.Native.Nat.{compare, Ordering}
use text.Mathlib.Text.{◌==◌ as str_eq}
use text.Mathlib.TextEquality.{eq_iff}
use whisky_scrapper_node.Prelude.{
  ℕ, String, ◌≤◌, ◌*◌, ◌≡◌, ◌≢◌, refl, sym, ap, ◌∙◌, Option, none, some, List, [], ◌∷◌, map, ltb,
  All, All-append, All-map, All-if, All-filter, ◌==◌, length, filter, flip, or_then, or_then-flip,
  compare-flip, sort, sort-All, sort-map, sort-Ascends, Ascends, group_by, group_by-All, arith,
  Bool-cases, Option-cases, inl, inr,
}
use whisky_scrapper_node.Report.Offers.{
  ReportCurrentRow, ReportRow, ReportOffer, ReportGroup, to_offer, to_group, Runtime, by_price,
  rows_by_price, enrich, grouped, group_of, groups_of, group_offers, wrap_offers,
  apply_min_discount,
}
use whisky_scrapper_node.Report.Request.{
  ReportKind, best, catalog, drops, low, new, ReportOptions, ReportFilter,
}
use whisky_scrapper_node.Report.Build.{
  selection_filter, Prices, catalog_groups, drops_groups, low_groups, newest_groups, store_count,
  winner_of, best_of_group, as_best, best_offers, best_group, best_each, best_groups, build_kind,
  by_name, by_discount, by_age, build_groups, within_price_bounds,
}

-- The first offer is that of the row that the group states, and no other is cheaper.
abbrev pub Led : ReportGroup → Type 0
Led g =
    (rest : List ReportOffer) × (g.offers ≡ to_offer g.primary ∷ rest)
    × All (λ o. g.primary.row.price ≤ o.price) rest

-- A row with the identifier of a row is that row.
abbrev pub Names : ReportCurrentRow → ReportCurrentRow → Type 0
Names top row = row.id ≡ top.id → row ≡ top

compare-le : (a b : ℕ) → compare a b ≢ Ordering.gt → a ≤ b
compare-le a b h = ground (arith, h)

module _ (runtime : Runtime) where
  by_price-flip : (a b : ReportCurrentRow) → by_price runtime b a ≡ flip (by_price runtime a b)
  unfolding by_price
  by_price-flip a b =
      let stores = runtime.collation.locale_compare a.store_name b.store_name in
      let ids = runtime.collation.locale_compare a.id b.id in
      or_then-flip (compare a.price b.price) (or_then stores ids) (compare-flip a.price b.price) (
        or_then-flip stores ids (runtime.collation.locale_compare-flip a.store_name b.store_name)
          (runtime.collation.locale_compare-flip a.id b.id))

  by_price-le : (a b : ReportCurrentRow) → by_price runtime a b ≢ Ordering.gt → a.price ≤ b.price
  unfolding by_price
  by_price-le a b h = compare-le a.price b.price (λ e. h (rw e refl))

  -- What ascends begins with its cheapest row.
  cheapest :
      (bound : ℕ) (x : ReportCurrentRow) (xs : List ReportCurrentRow)
      → bound ≤ x.price
      → Ascends (by_price runtime) (x ∷ xs)
      → All (λ y. bound ≤ y.price) xs
  cheapest bound x [] le h = tt
  cheapest bound x (y ∷ ys) le h =
      let next : bound ≤ y.price = omega (arith, le, by_price-le x y h.0) in
      (next, cheapest bound y ys next h.1)

  cheapest_row :
      (bound : ℕ) (x : ReportRow) (xs : List ReportRow)
      → bound ≤ x.row.price
      → Ascends (rows_by_price runtime) (x ∷ xs)
      → All (λ o. bound ≤ o.price) (map to_offer xs)
  cheapest_row bound x [] le h = tt
  cheapest_row bound x (y ∷ ys) le h =
      let next : bound ≤ y.row.price = omega (arith, le, by_price-le x.row y.row h.0) in
      (next, cheapest_row bound y ys next h.1)

  grouped-Led :
      (rows : List ReportRow)
      → Ascends (rows_by_price runtime) rows
      → All Led (grouped runtime rows)
  grouped-Led [] h = tt
  grouped-Led (first ∷ rest) h =
      ((map to_offer rest, refl, cheapest_row first.row.price first rest (omega arith) h), tt)

  groups_of-Led : (groups : List (String × List ReportRow)) → All Led (groups_of runtime groups)
  unfolding group_of
  groups_of-Led [] = tt
  groups_of-Led ((product, rows) ∷ rest) =
      All-append Led (group_of runtime rows) (groups_of runtime rest)
        (grouped-Led (sort (rows_by_price runtime) rows)
          (sort-Ascends (rows_by_price runtime) (λ a b. by_price-flip a.row b.row) rows))
        (groups_of-Led rest)

  wrap_offers-Led : (rows : List ReportRow) → All Led (wrap_offers runtime rows)
  unfolding wrap_offers
  wrap_offers-Led [] = tt
  wrap_offers-Led (r ∷ rows) = (([], refl, tt), wrap_offers-Led rows)

  as_best-row :
      (winner : ReportRow) (row : ReportCurrentRow)
      → Names winner.row row
      → (as_best runtime winner row).row ≡ row
  unfolding enrich
  as_best-row winner row names = elim (Bool-cases (str_eq row.id winner.row.id)) [
    | inl e ↦ rw e (sym (names ((eq_iff row.id winner.row.id).0 e)))
    | inr e ↦ rw e refl
  ]

  as_best_self : (winner : ReportRow) → as_best runtime winner winner.row ≡ winner
  as_best_self winner = rw ((eq_iff winner.row.id winner.row.id).1 refl) refl

  -- The offers of a winner that stands first, as their rows were ordered.
  best_offers_lem :
      (winner : ReportRow) (group : List ReportCurrentRow)
      → All (Names winner.row) group
      → best_offers runtime group winner
        ≡ map to_offer (map (as_best runtime winner) (sort (by_price runtime) group))
  unfolding best_offers
  best_offers_lem winner group names = ap (map to_offer) (
      sort-map (as_best runtime winner) (by_price runtime) (rows_by_price runtime)
        (Names winner.row)
        (λ x y nx ny i. by_price runtime (as_best-row winner x nx i) (as_best-row winner y ny i))
        group names)

  -- The price of an offer of the others is that of its row.
  as_best-cheapest :
      (winner : ReportRow) (bound : ℕ) (rows : List ReportCurrentRow)
      → All (Names winner.row) rows
      → All (λ y. bound ≤ y.price) rows
      → All (λ o. bound ≤ o.price) (map to_offer (map (as_best runtime winner) rows))
  as_best-cheapest winner bound [] names h = tt
  as_best-cheapest winner bound (row ∷ rows) names h = (
    rw (ap (λ r. r.price) (as_best-row winner row names.0)) h.0,
    as_best-cheapest winner bound rows names.1 h.1,
  )

  winner_of-first :
      (ordered : List ReportCurrentRow) (winner : ReportRow)
      → winner_of runtime ordered ≡ some winner
      → (rest : List ReportCurrentRow) × (ordered ≡ winner.row ∷ rest)
  unfolding winner_of enrich
  winner_of-first [] winner h = absurd (cc h)
  winner_of-first (top ∷ []) winner h = absurd (cc h)
  winner_of-first (top ∷ runner_up ∷ rest) winner h =
      elim (Bool-cases (ltb (2 * top.price) runner_up.price)) [
        | inl e ↦ absurd (cc (rw e at h))
        | inr e ↦ (
          runner_up ∷ rest,
          ap
              (λ o. elim o as (λ _. List ReportCurrentRow) [
                | none ↦ []
                | some w ↦ w.row ∷ runner_up ∷ rest
              ])
              (rw e at h),
        )
      ]

  -- The winner is the first row by price.
  best_of_group-first :
      (group : List ReportCurrentRow) (winner : ReportRow)
      → best_of_group runtime group ≡ some winner
      → (rest : List ReportCurrentRow) × (sort (by_price runtime) group ≡ winner.row ∷ rest)
  unfolding best_of_group
  best_of_group-first group winner h = elim (Bool-cases (ltb (store_count group) 2)) [
    | inl e ↦ absurd (cc (rw e at h))
    | inr e ↦ winner_of-first (sort (by_price runtime) group) winner (rw e at h)
  ]

  winner-Led :
      (group : List ReportCurrentRow) (winner : ReportRow)
      → All (λ top. All (Names top) group) group
      → best_of_group runtime group ≡ some winner
      → Led (to_group winner (best_offers runtime group winner))
  winner-Led group winner names h =
      let (rest, first) = best_of_group-first group winner h in
      let own : All (Names winner.row) group =
        (rw first at (sort-All (λ top. All (Names top) group) (by_price runtime) group names)).0 in
      let sorted : Ascends (by_price runtime) (winner.row ∷ rest) =
        rw first at (sort-Ascends (by_price runtime) by_price-flip group) in
      let kept : All (Names winner.row) (winner.row ∷ rest) =
        rw first at (sort-All (Names winner.row) (by_price runtime) group own) in
      (
        map to_offer (map (as_best runtime winner) rest),
        best_offers_lem winner group own
            ∙ ap (λ rows. map to_offer (map (as_best runtime winner) rows)) first
            ∙ ap (λ r. to_offer r ∷ map to_offer (map (as_best runtime winner) rest))
                (as_best_self winner),
        as_best-cheapest winner winner.row.price rest kept.1
            (cheapest winner.row.price winner.row rest (omega arith) sorted),
      )

  best_group-Led :
      (filter : ReportFilter) (group : List ReportCurrentRow)
      → All (λ top. All (Names top) group) group
      → All Led (best_group runtime filter group)
  unfolding best_group
  best_group-Led filter group names = elim (Option-cases (best_of_group runtime group)) [
    | inl e ↦ rw (e, best_group) tt
    | inr (winner, e) ↦ elim (Bool-cases (within_price_bounds winner.row.price filter)) [
      | inl k ↦ rw (e, best_group) (rw (k, best_group) (winner-Led group winner names e, tt))
      | inr k ↦ rw (e, best_group) (rw (k, best_group) tt)
    ]
  ]

  best_each-Led :
      (filter : ReportFilter) (groups : List (String × List ReportCurrentRow))
      → All (λ e. All (λ top. All (Names top) e.1) e.1) groups
      → All Led (best_each runtime filter groups)
  best_each-Led filter [] h = tt
  best_each-Led filter ((product, group) ∷ rest) h =
      All-append Led (best_group runtime filter group) (best_each runtime filter rest)
        (best_group-Led filter group h.0) (best_each-Led filter rest h.1)

  apply_min_discount-Led :
      (discount : ReportGroup → Option ℕ) (min : Option ℕ) (groups : List ReportGroup)
      → All Led groups
      → All Led (apply_min_discount runtime discount min groups)
  unfolding apply_min_discount
  apply_min_discount-Led discount none groups h = h
  apply_min_discount-Led discount (some min) groups h =
      All-if Led (min == 0) groups _ h (All-filter Led _ groups h)

  Names-within :
      (current : List ReportCurrentRow) (groups : List (String × List ReportCurrentRow))
      → ((top : ReportCurrentRow) → All (Names top) current → All (λ e. All (Names top) e.1) groups)
      → All (λ e. All (λ top. All (Names top) current) e.1) groups
      → All (λ e. All (λ top. All (Names top) e.1) e.1) groups
  Names-within current [] each h = tt
  Names-within current (e ∷ rest) each h = (
    All-map (λ top. All (Names top) current) e.1 (λ top names. (each top names).0) h.0,
    Names-within current rest (λ top names. (each top names).1) h.1,
  )

  group-Names :
      (current : List ReportCurrentRow)
      → All (λ top. All (Names top) current) current
      → All (λ e. All (λ top. All (Names top) e.1) e.1) (group_by (λ row. row.product_id) current)
  group-Names current h =
      Names-within current (group_by (λ row. row.product_id) current)
        (λ top. group_by-All (λ row. row.product_id) (Names top) current)
        (group_by-All (λ row. row.product_id) (λ top. All (Names top) current) current h)

module _ (runtime : Runtime) where
  build_kind-Led :
      (prices : Prices) (now : ℕ) (kind : ReportKind) (filter : ReportFilter)
      (options : ReportOptions) (current : List ReportCurrentRow)
      → All (λ top. All (Names top) current) current
      → All Led (build_kind runtime prices now kind filter options current)
  unfolding build_kind catalog_groups drops_groups low_groups newest_groups best_groups group_offers
  build_kind-Led prices now catalog filter options current h =
      sort-All Led (by_name runtime) _ (groups_of-Led runtime _)
  build_kind-Led prices now drops filter options current h =
      sort-All Led (by_discount runtime) _ (groups_of-Led runtime _)
  build_kind-Led prices now low filter options current h =
      sort-All Led (by_discount runtime) _ (wrap_offers-Led runtime _)
  build_kind-Led prices now new filter options current h =
      sort-All Led (by_age runtime) _ (groups_of-Led runtime _)
  build_kind-Led prices now best filter options current h = sort-All Led (by_discount runtime) _ (
      apply_min_discount-Led runtime (λ g. g.primary.discount_pct) options.min_discount _
        (best_each-Led runtime filter _ (group-Names runtime current h)))

-- Whatever report is asked for, of current rows of which no two have one identifier: every group of
-- it begins with the offer of the row that the group states, and no other offer of the group is
-- cheaper than that.
pub build_groups-Led :
    (runtime : Runtime) (prices : Prices) (now : ℕ) (latest : Option ℕ) (kind : ReportKind)
    (filter : ReportFilter) (options : ReportOptions)
    (find_current_rows : ReportFilter → List ReportCurrentRow)
    → let current = find_current_rows (selection_filter kind filter) in
      All (λ top. All (Names top) current) current
      → All Led (build_groups runtime prices now latest kind filter options find_current_rows)
unfolding build_groups
build_groups-Led runtime prices now none kind filter options find_current_rows h = tt
build_groups-Led runtime prices now (some latest) kind filter options find_current_rows h =
    let current = find_current_rows (selection_filter kind filter) in
    All-if Led (length current == 0) [] (build_kind runtime prices now kind filter options current)
      tt (build_kind-Led runtime prices now kind filter options current h)
