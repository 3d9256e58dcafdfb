-- ===== src/Persist/Tests.antt =====
-- Examples: a run that finds a stored offer, a new one, and misses a third.
use Prim.Native.String
use whisky_scrapper_node.Prelude.{
  ℕ, suc, String, ◌≡◌, All, ◌⊎◌, refl, Option, none, some, Bool, true, false, List, [], ◌∷◌, sort,
  insert_sorted,
}
use whisky_scrapper_node.Persist.Offers.{
  Offer, OfferTable, find_offer, touch, upsert, upsert_from_scrape, existing_skus,
  mark_out_of_stock_except,
}
use whisky_scrapper_node.Persist.Offers.Found.{stock_of, link_of}
use whisky_scrapper_node.Persist.Prices.{
  PriceRow, PriceSnapshotUpsertInput, upsert_for_date, mark_out_of_stock_for_day,
}
use whisky_scrapper_node.Persist.Priced.{Closed, persist-priced}
use whisky_scrapper_node.Persist.Swept.{after, persist-stock, persist-link, persist-keyed}
use whisky_scrapper_node.Persist.{
  ProductSnapshot, Catalogue, Collation, ProductCanonicalInput, canonical_slot, compare_keys,
  resolve_keys, by_key, create_each, resolve_canonical, offer_or_insert, upsert_offer, proposed_for,
  write_one, write_each, flag_out_of_stock, persist,
}

-- A catalogue that numbers the bottlings.
abbrev number_each : List ProductCanonicalInput → ℕ → List (String × ℕ) × ℕ × ℕ
number_each [] n = ([], 0, n)
number_each (i ∷ inputs) n =
    let (ids, added, last) = number_each inputs (suc n) in
    elim i.match_key [ none ↦ (ids, added, last) | some k ↦ ((k, n) ∷ ids, suc added, last) ]

abbrev numbered : Catalogue
numbered = record {
  State = ℕ;
  find_or_create_by_match_keys = number_each;
  create_unmatched = λ input n. (n, suc n);
}

abbrev by_code : Collation
by_code = Prim.Native.String.compare

abbrev no_key : ProductSnapshot → Option String
no_key snap = none

abbrev stated : PriceSnapshotUpsertInput
stated = record { price = 900; old_price = none; currency = "UAH"; in_stock = true; promo = false }

abbrev seen : String → Option String → ProductSnapshot
seen sku key = record {
  store_sku = sku;
  url = "/new";
  name = "N";
  match_key = key;
  stated = stated;
}

abbrev offer : ℕ → String → String → ℕ → Bool → Offer
offer id store_id sku product_id in_stock = record {
  id = id;
  store_id = store_id;
  sku = sku;
  product_id = product_id;
  url = "/old";
  name_orig = "O";
  in_stock = in_stock;
  first_seen = "d1";
  last_seen = "d1";
}

abbrev stored : OfferTable
stored = record {
  offers = offer 1 "s" "A" 7 false ∷ offer 2 "s" "B" 8 true ∷ offer 3 "z" "B" 8 true ∷ [];
  next_id = 4;
}

abbrev paid : List PriceRow
paid = record { store_product_id = 2; captured_on = "d2"; stated = stated } ∷ []

abbrev listing : List ProductSnapshot
listing = seen "C" (some "k") ∷ seen "A" (some "j") ∷ seen "D" none ∷ []

abbrev run : Bool → OfferTable
run complete = after numbered by_code no_key "s" listing ("B" ∷ []) "d2" complete stored paid 20

run_stored : (persist numbered by_code no_key "s" listing [] "d2" true stored paid 20).0.stored ≡ 3
unfolding persist resolve_keys compare_keys resolve_canonical create_each by_key existing_skus
    canonical_slot write_each write_one upsert_offer offer_or_insert proposed_for upsert_from_scrape
    touch upsert upsert_for_date flag_out_of_stock mark_out_of_stock_except
    mark_out_of_stock_for_day sort insert_sorted
run_stored = refl

run_removed :
    (persist numbered by_code no_key "s" listing [] "d2" true stored paid 20).0.removed ≡ 1
unfolding persist resolve_keys compare_keys resolve_canonical create_each by_key existing_skus
    canonical_slot write_each write_one upsert_offer offer_or_insert proposed_for upsert_from_scrape
    touch upsert upsert_for_date flag_out_of_stock mark_out_of_stock_except
    mark_out_of_stock_for_day sort insert_sorted
run_removed = refl

persist-stock_example : stock_of (find_offer "s" "B" (run true).offers) ≡ some false
persist-stock_example =
    persist-stock numbered by_code no_key "s" listing ("B" ∷ []) "d2" true stored paid 20 "B"

persist-link_example :
    (link_of (find_offer "s" "A" (run false).offers) ≡ some 7)
    × ((◌≡◌ {A = String} "s" "s") ⊎ (stock_of (find_offer "s" "A" (run false).offers) ≡ some false))
persist-link_example =
    persist-link numbered by_code no_key "s" listing ("B" ∷ []) "d2" false stored paid 20 "s" "A" 7
      refl

persist-keyed_example : link_of (find_offer "s" "C" (run true).offers) ≡ some 20
unfolding resolve_keys compare_keys resolve_canonical create_each by_key existing_skus
    canonical_slot sort insert_sorted
persist-keyed_example =
    persist-keyed numbered by_code no_key "s" listing ("B" ∷ []) "d2" true stored paid 20 "C" "k" 20
      refl ((λ e. refl), ((λ e. cc), ((λ e. cc), tt))) refl refl

-- "B" was sold out between two runs of one day.
persist-priced_example :
    All (Closed 2 "d2") (persist numbered by_code no_key "s" listing [] "d2" true stored paid 20).2
unfolding persist resolve_keys compare_keys resolve_canonical create_each by_key existing_skus
    canonical_slot write_each write_one upsert_offer offer_or_insert proposed_for upsert_from_scrape
    touch upsert upsert_for_date flag_out_of_stock mark_out_of_stock_except
    mark_out_of_stock_for_day sort insert_sorted
persist-priced_example =
    persist-priced numbered by_code no_key "s" listing [] "d2" true stored paid 20 "B"
      (record (offer 2 "s" "B" 8 true) { in_stock = false }) refl refl
