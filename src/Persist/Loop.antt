-- ===== src/Persist/Loop.antt =====
-- What the write loop makes of an offer.
use text.Mathlib.Text.{◌==◌ as str_eq}
use text.Mathlib.TextEquality.{eq_iff}
use whisky_scrapper_node.Prelude.{
  ℕ, String, ◌≡◌, refl, sym, ap, ◌∙◌, inl, inr, Option, none, some, Bool, true, false, ◌&&◌, List,
  [], ◌∷◌, All, any, if◌then◌else◌, arith, Bool-cases, Option-cases,
}
use whisky_scrapper_node.Persist.Offers.{
  Offer, StoreProductUpsertInput, StoreProductUpsertResult, OfferTable, find_offer, touch, upsert,
  upsert_from_scrape, of_row,
}
use whisky_scrapper_node.Persist.Offers.Found.{
  stock_of, link_of, or_new, stock_of-upsert, link_of-upsert,
}
use whisky_scrapper_node.Persist.{
  ProductSnapshot, ResolvedSnapshot, Catalogue, Written, Slots, canonical_input, input_of,
  offer_or_insert, upsert_offer, proposed_for, write_one, write_each,
}

-- What was proposed is what a new row is linked to.
abbrev pub Chosen : Option ℕ → ℕ → Type 0
Chosen none p = Unit
Chosen (some q) p = q ≡ p

-- The item is for the store's SKU.
abbrev pub is_item : String → ResolvedSnapshot → Bool
is_item k item = str_eq item.snap.store_sku k

new_link : (q : ℕ) (b : Bool) (l : Option ℕ) → l ≡ none → b ≡ true → or_new q b l ≡ some q
new_link q b none h k = rw k refl
new_link q b (some x) h k = cc

no_link : (q : ℕ) (b : Bool) (l : Option ℕ) → l ≡ none → b ≡ false → or_new q b l ≡ none
no_link q b none h k = rw k refl
no_link q b (some x) h k = cc

module _ (catalogue : Catalogue) where
  open catalogue use {State}

  missed :
      (input : StoreProductUpsertInput) (t : OfferTable)
      → input.product_id ≡ none
      → find_offer input.store_id input.sku t.offers ≡ none
      → upsert_from_scrape input t ≡ (none, t)
  unfolding upsert_from_scrape touch
  missed input t e h = rw (e, upsert_from_scrape, h, touch) refl

  touched :
      (input : StoreProductUpsertInput) (t : OfferTable) (o : Offer)
      → input.product_id ≡ none
      → find_offer input.store_id input.sku t.offers ≡ some o
      → upsert_from_scrape input t ≡ (some (of_row o), (upsert input 0 t).1)
  unfolding upsert_from_scrape touch upsert
  touched input t o e h = rw (e, upsert_from_scrape, h, touch, upsert) refl

  -- The table after an offer was written is that after an upsert of its key.
  upserted :
      (store_id : String) (snap : ProductSnapshot) (proposed : Option ℕ) (day : String)
      (t : OfferTable) (c : State)
      → (p : ℕ) × (q : Option ℕ) × ((upsert_offer catalogue store_id snap proposed day t c).2
          ≡ (upsert (input_of catalogue store_id day snap q) p t).1)
        × Chosen proposed p
  unfolding upsert_offer offer_or_insert
  upserted store_id snap (some p) day t c = (p, some p, (unfold upsert_from_scrape in refl), refl)
  upserted store_id snap none day t c =
      elim (Option-cases (find_offer store_id snap.store_sku t.offers)) [
        | inl e ↦
            let created =
              (catalogue.create_unmatched
                (canonical_input (record { snap = snap; match_key = none })) c).0 in
            (
              created,
              some created,
              ap
                  (λ (r : Option StoreProductUpsertResult × OfferTable).
                    (offer_or_insert catalogue store_id snap day r c).2)
                  (missed (input_of catalogue store_id day snap none) t refl e),
              tt,
            )
        | inr (o, e) ↦ (
          0,
          none,
          ap
              (λ (r : Option StoreProductUpsertResult × OfferTable).
                (offer_or_insert catalogue store_id snap day r c).2)
              (touched (input_of catalogue store_id day snap none) t o refl e),
          tt,
        )
      ]

  stock_of-write_one :
      (store_id : String) (known : List String) (slots : Slots) (day : String)
      (item : ResolvedSnapshot) (w : Written catalogue) (st k : String)
      → stock_of
          (find_offer st k (write_one catalogue store_id known slots day item w).table.offers)
        ≡ (if str_eq store_id st && is_item k item
            then some true
            else stock_of (find_offer st k w.table.offers))
  unfolding write_one
  stock_of-write_one store_id known slots day item w st k =
      let (p, q, e, _) =
        upserted store_id item.snap (proposed_for catalogue known slots item) day w.table
          w.bottlings in
      ap (λ (t : OfferTable). stock_of (find_offer st k t.offers)) e
      ∙ stock_of-upsert (input_of catalogue store_id day item.snap q) p w.table st k

  pub stock_of-write_each :
      (store_id : String) (known : List String) (slots : Slots) (day : String)
      (items : List ResolvedSnapshot) (w : Written catalogue) (st k : String)
      → stock_of
          (find_offer st k (write_each catalogue store_id known slots day items w).table.offers)
        ≡ (if str_eq store_id st && any (is_item k) items
            then some true
            else stock_of (find_offer st k w.table.offers))
  unfolding write_each
  stock_of-write_each store_id known slots day [] w st k = ground arith
  stock_of-write_each store_id known slots day (item ∷ items) w st k = ground (
    arith,
    stock_of-write_each store_id known slots day items
        (write_one catalogue store_id known slots day item w) st k,
    stock_of-write_one store_id known slots day item w st k,
  )

  link_of-write_one :
      (store_id : String) (known : List String) (slots : Slots) (day : String)
      (item : ResolvedSnapshot) (w : Written catalogue) (st k : String)
      → (p : ℕ) × (link_of
            (find_offer st k (write_one catalogue store_id known slots day item w).table.offers)
          ≡ or_new p
              (str_eq store_id st && is_item k item)
              (link_of (find_offer st k w.table.offers)))
        × Chosen (proposed_for catalogue known slots item) p
  unfolding write_one
  link_of-write_one store_id known slots day item w st k =
      let (p, q, e, chosen) =
        upserted store_id item.snap (proposed_for catalogue known slots item) day w.table
          w.bottlings in
      (
        p,
        ap (λ (t : OfferTable). link_of (find_offer st k t.offers)) e
            ∙ link_of-upsert (input_of catalogue store_id day item.snap q) p w.table st k,
        chosen,
      )

  -- A link that is there stays.
  pub link_of-write_each :
      (store_id : String) (known : List String) (slots : Slots) (day : String)
      (items : List ResolvedSnapshot) (w : Written catalogue) (st k : String) (p : ℕ)
      → link_of (find_offer st k w.table.offers) ≡ some p
      → link_of
          (find_offer st k (write_each catalogue store_id known slots day items w).table.offers)
        ≡ some p
  unfolding write_each
  link_of-write_each store_id known slots day [] w st k p h = h
  link_of-write_each store_id known slots day (item ∷ items) w st k p h =
      let (q, e, _) = link_of-write_one store_id known slots day item w st k in
      link_of-write_each store_id known slots day items
        (write_one catalogue store_id known slots day item w) st k p
        (e ∙ ap (or_new q (str_eq store_id st && is_item k item)) h)

  -- A SKU that had no offer is linked to the bottling that all its items propose.
  pub link_of-write_each_new :
      (store_id : String) (known : List String) (slots : Slots) (day : String)
      (items : List ResolvedSnapshot) (w : Written catalogue) (k : String) (p : ℕ)
      → link_of (find_offer store_id k w.table.offers) ≡ none
      → All (λ item. is_item k item ≡ true → proposed_for catalogue known slots item ≡ some p) items
      → any (is_item k) items ≡ true
      → link_of (
          find_offer store_id k
            (write_each catalogue store_id known slots day items w).table.offers)
        ≡ some p
  unfolding write_each
  link_of-write_each_new store_id known slots day [] w k p h all_ some_ = cc
  link_of-write_each_new store_id known slots day (item ∷ items) w k p h (this, rest) some_ =
      let (q, e, chosen) = link_of-write_one store_id known slots day item w store_id k in
      elim (Bool-cases (is_item k item)) [
        | inl mine ↦
            let same : p ≡ q = rw (this mine) at chosen in
            link_of-write_each store_id known slots day items
              (write_one catalogue store_id known slots day item w) store_id k p
              (e
                ∙ new_link q (str_eq store_id store_id && is_item k item)
                    (link_of (find_offer store_id k w.table.offers)) h
                    (ground (arith, eq_iff store_id store_id))
                ∙ ap some (sym same))
        | inr other ↦
            link_of-write_each_new store_id known slots day items
              (write_one catalogue store_id known slots day item w) k p
              (e
                ∙ no_link q (str_eq store_id store_id && is_item k item)
                    (link_of (find_offer store_id k w.table.offers)) h (ground arith))
              rest (ground arith)
      ]
