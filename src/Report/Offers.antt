-- ===== src/Report/Offers.antt =====
-- Offers and the groups of them (utils/offer-price.util.ts, and domain/report/report.service.ts from
-- groupByProduct to enrich). A price is counted in the smallest unit of its currency and a date in
-- days. A percentage is computed in floating point, so how it is rounded is a parameter.
pub mod Grouped
use Prim.Native.Nat.{compare, Ordering}
use whisky_scrapper_node.Prelude.{
  ℕ, String, Option, none, some, Bool, ◌||◌, ◌==◌, List, [], ◌∷◌, ◌++◌, map, if◌then◌else◌, ltb,
  leb, filter, sort, or_then, group_by, each_group,
}
use whisky_scrapper_node.Report.Page.{Collation}

-- What the reports read of a current row.
pub record ReportCurrentRow : Type 0 where
  pub id : String
  pub product_id : String
  pub name : Option String
  pub name_orig : String
  pub store_slug : String
  pub store_name : String
  pub price : ℕ
  pub previous_price : Option ℕ
  pub first_seen : ℕ
  pub captured_date : ℕ

-- A count of days, which is negative after a date that lies ahead.
pub data Days : Type 0 where
  past : ℕ → Days
  -- One day ahead and more.
  ahead : ℕ → Days

-- A current row, which is its field `row` here, with the discount and the age.
pub record ReportRow : Type 0 where
  pub row : ReportCurrentRow
  pub reference_price : Option ℕ
  pub discount_pct : Option ℕ
  pub is_new : Bool
  pub days_new : Option Days
  pub days_discount : Option Days

-- What is read of an offer.
pub record ReportOffer : Type 0 where
  pub id : String
  pub name_orig : String
  pub store_slug : String
  pub store_name : String
  pub price : ℕ
  pub previous_price : Option ℕ
  pub reference_price : Option ℕ
  pub discount_pct : Option ℕ
  pub is_new : Bool
  pub days_new : Option Days
  pub days_discount : Option Days
  pub first_seen : ℕ
  pub captured_date : ℕ

-- The group's own fields are those of its primary row.
pub record ReportGroup : Type 0 where
  pub primary : ReportRow
  pub offers : List ReportOffer

abbrev pub to_offer : ReportRow → ReportOffer
to_offer r = record {
  id = r.row.id;
  name_orig = r.row.name_orig;
  store_slug = r.row.store_slug;
  store_name = r.row.store_name;
  price = r.row.price;
  previous_price = r.row.previous_price;
  reference_price = r.reference_price;
  discount_pct = r.discount_pct;
  is_new = r.is_new;
  days_new = r.days_new;
  days_discount = r.days_discount;
  first_seen = r.row.first_seen;
  captured_date = r.row.captured_date;
}

abbrev pub to_group : ReportRow → List ReportOffer → ReportGroup
to_group primary offers = record { primary = primary; offers = offers }

-- `previousDrop`; a previous price of 0 is falsy, and beats no price either.
unfoldable pub previous_drop : ReportCurrentRow → Option ℕ
previous_drop row = elim row.previous_price [
  | none ↦ none
  | some previous ↦ if ltb row.price previous then some previous else none
]

-- The runtime: its collation, and `Math.round((reference - current) / reference * 100)`.
pub record Runtime : Type 0 where
  pub collation : Collation
  pub percent : ℕ → ℕ → ℕ

module _ (runtime : Runtime) where
  open runtime use {percent}
  open runtime.collation use {locale_compare}

  unfoldable pub discount_pct : ℕ → Option ℕ → Option ℕ
  discount_pct current none = none
  discount_pct current (some reference) =
      if reference == 0 || leb reference current then none else some (percent current reference)

  -- `byPrice`, which reads three fields.
  abbrev pub by_fields : ℕ → String → String → ℕ → String → String → Ordering
  by_fields price store_name id price' store_name' id' =
      or_then (compare price price')
        (or_then (locale_compare store_name store_name') (locale_compare id id'))

  unfoldable pub by_price : ReportCurrentRow → ReportCurrentRow → Ordering
  by_price a b = by_fields a.price a.store_name a.id b.price b.store_name b.id

  abbrev pub rows_by_price : ReportRow → ReportRow → Ordering
  rows_by_price a b = by_price a.row b.row

  unfoldable pub enrich : ReportCurrentRow → Option ℕ → Bool → Option Days → Option Days → ReportRow
  enrich row reference_price is_new days_new days_discount = record {
    row = row;
    reference_price = reference_price;
    discount_pct = discount_pct row.price reference_price;
    is_new = is_new;
    days_new = days_new;
    days_discount = days_discount;
  }

  -- The group of rows in their order; there is no group without a row.
  abbrev pub grouped : List ReportRow → List ReportGroup
  grouped [] = []
  grouped (first ∷ rest) = to_group first (map to_offer (first ∷ rest)) ∷ []

  -- A group of rows of one product, cheapest first.
  unfoldable pub group_of : List ReportRow → List ReportGroup
  group_of rows = grouped (sort rows_by_price rows)

  abbrev pub groups_of : List (String × List ReportRow) → List ReportGroup
  groups_of groups = each_group group_of groups

  unfoldable pub group_offers : List ReportRow → List ReportGroup
  group_offers rows = groups_of (group_by (λ r. r.row.product_id) rows)

  unfoldable pub wrap_offers : List ReportRow → List ReportGroup
  wrap_offers rows = map (λ r. to_group r (to_offer r ∷ [])) rows

  -- `applyMinDiscount`, for whatever has a discount.
  unfoldable pub apply_min_discount : {A : Type 0} → (A → Option ℕ) → Option ℕ → List A → List A
  apply_min_discount discount none rows = rows
  apply_min_discount discount (some min) rows =
      if min == 0
      then rows
      else filter (λ r. leb min (elim (discount r) [ none ↦ 0 | some pct ↦ pct ])) rows
