-- ===== src/Persist/Offers.antt =====
-- The offers of the stores, and the statements that a run sends for them
-- (core/store-product/store-product.repository.ts). An id is a number; the times of a row's creation
-- and change are left out.
pub mod Found
use text.Mathlib.Text.{◌==◌ as str_eq}
use whisky_scrapper_node.Prelude.{
  ℕ, suc, String, ◌+◌, Option, none, some, Bool, true, false, not, ◌&&◌, List, [], ◌∷◌, ◌++◌, map,
  filter, length, any, if◌then◌else◌,
}

pub record Offer : Type 0 where
  pub id : ℕ
  pub store_id : String
  pub sku : String
  pub product_id : ℕ
  pub url : String
  pub name_orig : String
  pub in_stock : Bool
  pub first_seen : String
  pub last_seen : String

pub record StoreProductUpsertInput : Type 0 where
  pub store_id : String
  pub product_id : Option ℕ
  pub sku : String
  pub url : String
  pub name_orig : String
  pub seen_on : String

pub record StoreProductUpsertResult : Type 0 where
  pub id : ℕ
  pub product_id : ℕ
  pub is_new : Bool

-- The table, and the id of the next row.
pub record OfferTable : Type 0 where
  pub offers : List Offer
  pub next_id : ℕ

abbrev pub is_offer : String → String → Offer → Bool
is_offer store_id sku o = str_eq o.store_id store_id && str_eq o.sku sku

-- `(storeId, sku)` is unique.
abbrev pub find_offer : String → String → List Offer → Option Offer
find_offer store_id sku [] = none
find_offer store_id sku (o ∷ os) =
    if is_offer store_id sku o then some o else find_offer store_id sku os

-- What both statements write into a row that is there; its link to a bottling is left alone.
abbrev pub refreshed : StoreProductUpsertInput → Offer → Offer
refreshed input o =
    if is_offer input.store_id input.sku o
    then record o {
      url = input.url;
      name_orig = input.name_orig;
      in_stock = true;
      last_seen = input.seen_on;
    }
    else o

abbrev pub of_row : Offer → StoreProductUpsertResult
of_row o = record { id = o.id; product_id = o.product_id; is_new = false }

-- TOUCH_SQL
unfoldable pub touch :
    StoreProductUpsertInput → OfferTable → Option StoreProductUpsertResult × OfferTable
touch input t = elim (find_offer input.store_id input.sku t.offers) [
  | none ↦ (none, t)
  | some o ↦ (some (of_row o), record t { offers = map (refreshed input) t.offers })
]

abbrev pub inserted : StoreProductUpsertInput → ℕ → ℕ → Offer
inserted input product_id id = record {
  id = id;
  store_id = input.store_id;
  sku = input.sku;
  product_id = product_id;
  url = input.url;
  name_orig = input.name_orig;
  in_stock = true;
  first_seen = input.seen_on;
  last_seen = input.seen_on;
}

-- UPSERT_SQL
unfoldable pub upsert :
    StoreProductUpsertInput → ℕ → OfferTable → StoreProductUpsertResult × OfferTable
upsert input product_id t = elim (find_offer input.store_id input.sku t.offers) [
  | some o ↦ (of_row o, record t { offers = map (refreshed input) t.offers })
  | none ↦ (
    record { id = t.next_id; product_id = product_id; is_new = true },
    record {
      offers = t.offers ++ inserted input product_id t.next_id ∷ [];
      next_id = suc t.next_id;
    },
  )
]

unfoldable pub upsert_from_scrape :
    StoreProductUpsertInput → OfferTable → Option StoreProductUpsertResult × OfferTable
upsert_from_scrape input t = elim input.product_id [
  | none ↦ touch input t
  | some product_id ↦ let (row, t') = upsert input product_id t in (some row, t')
]

abbrev pub mem_text : String → List String → Bool
mem_text s xs = any (str_eq s) xs

unfoldable pub existing_skus : String → OfferTable → List String
existing_skus store_id t = map (λ o. o.sku) (filter (λ o. str_eq o.store_id store_id) t.offers)

-- An in-stock offer of the store whose SKU passes the test is flagged.
abbrev pub flagged : String → (String → Bool) → Offer → Offer
flagged store_id test o =
    if str_eq o.store_id store_id && o.in_stock && test o.sku
    then record o { in_stock = false }
    else o

abbrev pub count_flagged : String → (String → Bool) → List Offer → ℕ
count_flagged store_id test os =
    length (filter (λ o. str_eq o.store_id store_id && o.in_stock && test o.sku) os)

unfoldable pub mark_out_of_stock_by_skus : String → List String → OfferTable → ℕ × OfferTable
mark_out_of_stock_by_skus store_id [] t = (0, t)
mark_out_of_stock_by_skus store_id (sku ∷ skus) t =
    let test = λ (s : String). mem_text s (sku ∷ skus) in
    (
      count_flagged store_id test t.offers,
      record t { offers = map (flagged store_id test) t.offers },
    )

unfoldable pub mark_out_of_stock_except : String → List String → OfferTable → ℕ × OfferTable
mark_out_of_stock_except store_id keep_skus t =
    let test = λ (s : String). not (mem_text s keep_skus) in
    (
      count_flagged store_id test t.offers,
      record t { offers = map (flagged store_id test) t.offers },
    )
