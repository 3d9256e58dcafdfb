-- ===== src/Persist/Swept.antt =====
-- What a whole run leaves behind.
use text.Mathlib.Text.{◌==◌ as str_eq}
use text.Mathlib.TextEquality.{eq_iff}
use whisky_scrapper_node.Prelude.{
  ℕ, String, ◌≡◌, refl, ap, ◌∙◌, inl, inr, Option, none, some, Bool, true, false, not, ◌&&◌, List,
  [], ◌∷◌, map, any, All, All-map, ◌⊎◌, if◌then◌else◌, arith, Bool-cases, sort-All,
}
use whisky_scrapper_node.Persist.Offers.{OfferTable, find_offer, mem_text, existing_skus}
use whisky_scrapper_node.Persist.Offers.Found.{stock_of, link_of}
use whisky_scrapper_node.Persist.Prices.{PriceRow}
use whisky_scrapper_node.Persist.Loop.{
  is_item, stock_of-write_each, link_of-write_each, link_of-write_each_new,
}
use whisky_scrapper_node.Persist.Marked.{
  swept, swept-false, to_flag, stock_of-flag_out_of_stock, link_of-flag_out_of_stock,
  any-resolve_keys, existing_skus-missing,
}
use whisky_scrapper_node.Persist.{
  ProductSnapshot, ResolvedSnapshot, Collation, Catalogue, Slots, get_slot, compare_keys, resolved,
  resolve_keys, resolve_canonical, canonical_slot, proposed_for, Written, write_each, persist,
}

abbrev pub skus_of : List ProductSnapshot → List String
skus_of = map (λ (s : ProductSnapshot). s.store_sku)

-- What a run makes of the availability of a SKU of its store.
abbrev pub settled : Bool → Bool → Bool → Option Bool → Option Bool
settled true true oos before = some true
settled true false oos none = none
settled true false oos (some v) = some false
settled false true oos before = some (not oos)
settled false false oos none = none
settled false false oos (some v) = some (v && not oos)

settled_lem :
    (complete seen oos : Bool) (before : Option Bool)
    → swept (if complete then not seen else oos) (if seen then some true else before)
      ≡ settled complete seen oos before
settled_lem true true oos before = refl
settled_lem true false oos none = refl
settled_lem true false oos (some v) = refl
settled_lem false true true before = refl
settled_lem false true false before = refl
settled_lem false false oos none = refl
settled_lem false false true (some v) = ground arith
settled_lem false false false (some v) = ground arith

module _ (catalogue : Catalogue) (locale : Collation) (key : ProductSnapshot → Option String)
    (store_id : String) (in_stock : List ProductSnapshot) (oos_skus : List String) (day : String)
    (complete : Bool) (t : OfferTable) (prices : List PriceRow) (c : catalogue.State) where
  abbrev pub known : List String
  known = existing_skus store_id t

  abbrev pub work : List ResolvedSnapshot
  work = resolve_keys locale key in_stock

  abbrev pub slots : Slots
  slots = (resolve_canonical catalogue locale work known c).0

  abbrev pub begun : Written catalogue
  begun = record {
    table = t;
    prices = prices;
    bottlings = (resolve_canonical catalogue locale work known c).2;
    stored = 0;
    added = 0;
    added_products = (resolve_canonical catalogue locale work known c).1;
  }

  abbrev pub after : OfferTable
  after = (persist catalogue locale key store_id in_stock oos_skus day complete t prices c).1

  -- After a run, an offer of its store is available as the run found it. When the walk reached the
  -- end of the listing: exactly when the run saw it in stock. When it did not: when the run saw it in
  -- stock or it was before, and the listing did not state it as out of stock. A SKU that the run did
  -- not see gets no offer.
  pub persist-stock :
      (k : String)
      → stock_of (find_offer store_id k after.offers)
        ≡ settled complete
            (mem_text k (skus_of in_stock))
            (mem_text k oos_skus)
            (stock_of (find_offer store_id k t.offers))
  unfolding persist
  persist-stock k =
      stock_of-flag_out_of_stock catalogue store_id (skus_of in_stock) oos_skus complete
        (write_each catalogue store_id known slots day work begun).table store_id k
      ∙ ap (swept (str_eq store_id store_id && to_flag complete (skus_of in_stock) oos_skus k))
          (stock_of-write_each catalogue store_id known slots day work begun store_id k)
      ∙ own (str_eq store_id store_id) ((eq_iff store_id store_id).1 refl)
    where
      own :
          (b : Bool)
          → b ≡ true
          → swept (b && to_flag complete (skus_of in_stock) oos_skus k) (
              if b && any (is_item k) work
              then some true
              else stock_of (find_offer store_id k t.offers))
            ≡ settled complete
                (mem_text k (skus_of in_stock))
                (mem_text k oos_skus)
                (stock_of (find_offer store_id k t.offers))
      own false e = cc
      own true e =
          ap
            (λ seen.
              swept (to_flag complete (skus_of in_stock) oos_skus k)
                (if seen then some true else stock_of (find_offer store_id k t.offers)))
            (any-resolve_keys locale key k in_stock)
          ∙ settled_lem complete (mem_text k (skus_of in_stock)) (mem_text k oos_skus)
              (stock_of (find_offer store_id k t.offers))

  -- An offer that has a link to a bottling keeps it through a run, whatever the run found. Its
  -- availability is as it was, unless the run is one of its own store.
  pub persist-link :
      (store' k : String) (p : ℕ)
      → link_of (find_offer store' k t.offers) ≡ some p
      → (link_of (find_offer store' k after.offers) ≡ some p)
        × (((store_id ≡ store')
            ⊎ (stock_of (find_offer store' k after.offers)
                ≡ stock_of (find_offer store' k t.offers))))
  unfolding persist
  persist-link store' k p h = (
    link_of-flag_out_of_stock catalogue store_id (skus_of in_stock) oos_skus complete
          (write_each catalogue store_id known slots day work begun).table store' k
        ∙ link_of-write_each catalogue store_id known slots day work begun store' k p h,
    elim (Bool-cases (str_eq store_id store')) [
      | inl same ↦ inl ((eq_iff store_id store').0 same)
      | inr other ↦ inr (
          stock_of-flag_out_of_stock catalogue store_id (skus_of in_stock) oos_skus complete
            (write_each catalogue store_id known slots day work begun).table store' k
          ∙ ap (swept (str_eq store_id store' && to_flag complete (skus_of in_stock) oos_skus k))
              (stock_of-write_each catalogue store_id known slots day work begun store' k)
          ∙ elsewhere (str_eq store_id store') other)
    ],
  )
    where
      elsewhere :
          (b : Bool)
          → b ≡ false
          → swept (b && to_flag complete (skus_of in_stock) oos_skus k) (
              if b && any (is_item k) work
              then some true
              else stock_of (find_offer store' k t.offers))
            ≡ stock_of (find_offer store' k t.offers)
      elsewhere true e = cc
      elsewhere false e = swept-false (stock_of (find_offer store' k t.offers))

  -- Every snapshot that has the SKU has the key.
  abbrev pub Keyed : String → String → ProductSnapshot → Type 0
  Keyed k slot s = str_eq s.store_sku k ≡ true → (resolved key s).match_key ≡ some slot

  proposed-Keyed :
      (k slot : String) (p : ℕ)
      → mem_text k known ≡ false
      → get_slot slot slots ≡ some p
      → (item : ResolvedSnapshot) → (is_item k item ≡ true → item.match_key ≡ some slot)
      → is_item k item ≡ true
      → proposed_for catalogue known slots item ≡ some p
  unfolding proposed_for canonical_slot
  proposed-Keyed k slot p fresh got item keyed mine =
      let same : item.snap.store_sku ≡ k = (eq_iff item.snap.store_sku k).0 mine in
      rw (same, proposed_for) (rw fresh (rw (keyed mine) got))

  -- A new SKU that the run saw is linked to the bottling that was found or created for a key, where
  -- each of its snapshots has that key.
  pub persist-keyed :
      (k slot : String) (p : ℕ)
      → find_offer store_id k t.offers ≡ none
      → All (Keyed k slot) in_stock
      → mem_text k (skus_of in_stock) ≡ true
      → get_slot slot slots ≡ some p
      → link_of (find_offer store_id k after.offers) ≡ some p
  unfolding persist resolve_keys
  persist-keyed k slot p none_yet keyed seen got =
      link_of-flag_out_of_stock catalogue store_id (skus_of in_stock) oos_skus complete
        (write_each catalogue store_id known slots day work begun).table store_id k
      ∙ link_of-write_each_new catalogue store_id known slots day work begun k p
          (ap link_of none_yet)
          (All-map (λ item. is_item k item ≡ true → item.match_key ≡ some slot) work
            (proposed-Keyed k slot p (existing_skus-missing store_id k t none_yet) got)
            (sort-All (λ item. is_item k item ≡ true → item.match_key ≡ some slot)
              (compare_keys locale) (map (resolved key) in_stock) (mapped in_stock keyed)))
          (any-resolve_keys locale key k in_stock ∙ seen)
    where
      mapped :
          (xs : List ProductSnapshot)
          → All (Keyed k slot) xs
          → All (λ item. is_item k item ≡ true → item.match_key ≡ some slot) (map (resolved key) xs)
      mapped [] h = tt
      mapped (x ∷ xs) h = (h.0, mapped xs h.1)
