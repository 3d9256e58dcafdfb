-- ===== src/Persist/Prices.antt =====
-- The prices of a day (core/price-snapshot/price-snapshot.repository.ts). A price is
-- stored and never computed with.
use text.Mathlib.Text.{◌==◌ as str_eq}
use whisky_scrapper_node.Prelude.{
  ℕ, String, Option, Bool, false, not, ◌&&◌, ◌==◌, List, [], ◌∷◌, ◌++◌, map, any, if◌then◌else◌,
}
use whisky_scrapper_node.Persist.Offers.{Offer}

pub record PriceSnapshotUpsertInput : Type 0 where
  pub price : ℕ
  pub old_price : Option ℕ
  pub currency : String
  pub in_stock : Bool
  pub promo : Bool

pub record PriceRow : Type 0 where
  pub store_product_id : ℕ
  pub captured_on : String
  pub stated : PriceSnapshotUpsertInput

abbrev pub is_price : ℕ → String → PriceRow → Bool
is_price store_product_id day r = r.store_product_id == store_product_id && str_eq r.captured_on day

-- `ON CONFLICT ("storeProductId", "capturedOn") DO UPDATE`
unfoldable pub upsert_for_date :
    ℕ → String → PriceSnapshotUpsertInput → List PriceRow → List PriceRow
upsert_for_date id day stated rows =
    if any (is_price id day) rows
    then map (λ r. if is_price id day r then record r { stated = stated } else r) rows
    else rows ++ record { store_product_id = id; captured_on = day; stated = stated } ∷ []

-- The offers of the store that are out of stock.
abbrev pub is_out : String → List Offer → ℕ → Bool
is_out store_id offers id =
    any (λ o. o.id == id && str_eq o.store_id store_id && not o.in_stock) offers

abbrev pub closed : PriceRow → PriceRow
closed r = record r { stated = record r.stated { in_stock = false } }

unfoldable pub mark_out_of_stock_for_day :
    String → String → List Offer → List PriceRow → List PriceRow
mark_out_of_stock_for_day store_id day offers rows =
    map
      (λ r.
        if str_eq r.captured_on day
          && r.stated.in_stock
          && is_out store_id offers r.store_product_id
        then closed r
        else r)
      rows
