-- ===== src/Persist/Offers/Found.antt =====
-- What each statement makes of the row of a store's SKU.
use text.Mathlib.Text.{◌==◌ as str_eq}
use text.Mathlib.TextEquality.{eq_iff}
use whisky_scrapper_node.Prelude.{
  ℕ, String, ◌≡◌, refl, sym, ap, ◌∙◌, inl, inr, Option, none, some, Bool, true, false, ◌&&◌, List,
  [], ◌∷◌, ◌++◌, map, if◌then◌else◌, arith, Bool-cases, Option-cases,
}
use whisky_scrapper_node.Persist.Offers.{
  Offer, StoreProductUpsertInput, OfferTable, is_offer, find_offer, refreshed, inserted, upsert,
}

abbrev pub map_found : (Offer → Offer) → Option Offer → Option Offer
map_found g none = none
map_found g (some o) = some (g o)

-- A change that keeps a row's key is made to the row that is found.
pub find_offer-map :
    (g : Offer → Offer) (st k : String) (os : List Offer)
    → ((o : Offer) → is_offer st k (g o) ≡ is_offer st k o)
    → find_offer st k (map g os) ≡ map_found g (find_offer st k os)
find_offer-map g st k [] same = refl
find_offer-map g st k (o ∷ os) same = elim (Bool-cases (is_offer st k o)) [
  | inl e ↦ rw (same o, e) refl
  | inr e ↦ rw (same o, e) (find_offer-map g st k os same)
]

find_offer-append :
    (st k : String) (os : List Offer) (o : Offer)
    → find_offer st k os ≡ none
    → find_offer st k (os ++ o ∷ []) ≡ (if is_offer st k o then some o else none)
find_offer-append st k [] o h = refl
find_offer-append st k (x ∷ os) o h = elim (Bool-cases (is_offer st k x)) [
  | inl e ↦ cc (rw e at h)
  | inr e ↦ rw e (find_offer-append st k os o (rw e at h))
]

find_offer-append_other :
    (st k : String) (os : List Offer) (o : Offer)
    → is_offer st k o ≡ false
    → find_offer st k (os ++ o ∷ []) ≡ find_offer st k os
find_offer-append_other st k [] o h = rw h refl
find_offer-append_other st k (x ∷ os) o h = ground (arith, find_offer-append_other st k os o)

pub found_is :
    (st k : String) (os : List Offer) (o : Offer)
    → find_offer st k os ≡ some o
    → is_offer st k o ≡ true
found_is st k [] o h = cc
found_is st k (x ∷ os) o h = elim (Bool-cases (is_offer st k x)) [
  | inl e ↦ let same : ◌≡◌ {A = Option Offer} (some x) (some o) = rw e at h in cc
  | inr e ↦ found_is st k os o (rw e at h)
]

-- Whether an offer is available, and the bottling it is linked to.
abbrev pub stock_of : Option Offer → Option Bool
stock_of none = none
stock_of (some o) = some o.in_stock

abbrev pub link_of : Option Offer → Option ℕ
link_of none = none
link_of (some o) = some o.product_id

abbrev pub same_key : StoreProductUpsertInput → String → String → Bool
same_key input st k = str_eq input.store_id st && str_eq input.sku k

refreshed-key :
    (input : StoreProductUpsertInput) (st k : String) (o : Offer)
    → is_offer st k (refreshed input o) ≡ is_offer st k o
refreshed-key input st k o = ground arith

stock_of-refreshed :
    (input : StoreProductUpsertInput) (st k : String) (o : Offer)
    → is_offer st k o ≡ true
    → stock_of (some (refreshed input o))
      ≡ (if same_key input st k then some true else some o.in_stock)
stock_of-refreshed input st k o h = ground (
  arith,
  eq_iff o.store_id st,
  eq_iff o.sku k,
  eq_iff o.store_id input.store_id,
  eq_iff o.sku input.sku,
  eq_iff input.store_id st,
  eq_iff input.sku k,
)

link_of-refreshed :
    (input : StoreProductUpsertInput) (o : Offer)
    → link_of (some (refreshed input o)) ≡ some o.product_id
link_of-refreshed input o = ground arith

same_find :
    (input : StoreProductUpsertInput) (st k : String) (os : List Offer)
    → same_key input st k ≡ true
    → find_offer st k os ≡ find_offer input.store_id input.sku os
same_find input st k os h =
    let a : input.store_id ≡ st = (eq_iff input.store_id st).0 (ground arith) in
    let b : input.sku ≡ k = (eq_iff input.sku k).0 (ground arith) in
    ap (λ s. find_offer s k os) (sym a) ∙ ap (λ s. find_offer input.store_id s os) (sym b)

-- What refreshing makes of a row that was found, or was not.
abbrev restocked : Bool → Option Offer → Option Bool
restocked same none = none
restocked same (some o) = if same then some true else some o.in_stock

stock_of-map :
    (input : StoreProductUpsertInput) (st k : String) (os : List Offer)
    → stock_of (find_offer st k (map (refreshed input) os))
      ≡ restocked (same_key input st k) (find_offer st k os)
stock_of-map input st k os =
    ap stock_of (find_offer-map (refreshed input) st k os (refreshed-key input st k)) ∙ found
  where
    found :
        stock_of (map_found (refreshed input) (find_offer st k os))
        ≡ restocked (same_key input st k) (find_offer st k os)
    found = elim (Option-cases (find_offer st k os)) [
      | inl e ↦ rw e refl
      | inr (o, e) ↦ rw e (stock_of-refreshed input st k o (found_is st k os o e))
    ]

link_of-map :
    (input : StoreProductUpsertInput) (st k : String) (os : List Offer)
    → link_of (find_offer st k (map (refreshed input) os)) ≡ link_of (find_offer st k os)
link_of-map input st k os =
    ap link_of (find_offer-map (refreshed input) st k os (refreshed-key input st k)) ∙ found
  where
    found :
        link_of (map_found (refreshed input) (find_offer st k os)) ≡ link_of (find_offer st k os)
    found = elim (Option-cases (find_offer st k os)) [
      | inl e ↦ rw e refl
      | inr (o, e) ↦ rw e (link_of-refreshed input o)
    ]

appended_self :
    (st k : String) (os : List Offer) (o : Offer)
    → find_offer st k os ≡ none
    → is_offer st k o ≡ true
    → find_offer st k (os ++ o ∷ []) ≡ some o
appended_self st k os o h e = find_offer-append st k os o h ∙ ap (λ b. if b then some o else none) e

-- The store's SKU is available afterwards; every other one is as it was.
pub stock_of-upsert :
    (input : StoreProductUpsertInput) (p : ℕ) (t : OfferTable) (st k : String)
    → stock_of (find_offer st k (upsert input p t).1.offers)
      ≡ (if same_key input st k then some true else stock_of (find_offer st k t.offers))
unfolding upsert
stock_of-upsert input p t st k =
    elim (Option-cases (find_offer input.store_id input.sku t.offers)) [
      | inr (o, e) ↦
          rw (e, upsert)
            (stock_of-map input st k t.offers ∙ elim (Bool-cases (same_key input st k)) [
              | inl same ↦ rw (same, same_find input st k t.offers same, e) refl
              | inr other ↦ rw other (kept (find_offer st k t.offers))
            ])
      | inl e ↦ elim (Bool-cases (same_key input st k)) [
        | inl same ↦
            rw (e, upsert, same)
              (ap stock_of (
                appended_self st k t.offers (inserted input p t.next_id)
                  (same_find input st k t.offers same ∙ e) same))
        | inr other ↦
            rw (e, upsert, other) (ap stock_of (find_offer-append_other st k t.offers _ other))
      ]
    ]
  where
    kept : (f : Option Offer) → restocked false f ≡ stock_of f
    kept none = refl
    kept (some o) = refl

-- A link that is there, or the given one where the SKU is the one that is written.
abbrev pub or_new : ℕ → Bool → Option ℕ → Option ℕ
or_new p same (some q) = some q
or_new p same none = if same then some p else none

-- A link that is there stays; only a SKU that is new gets the given one.
pub link_of-upsert :
    (input : StoreProductUpsertInput) (p : ℕ) (t : OfferTable) (st k : String)
    → link_of (find_offer st k (upsert input p t).1.offers)
      ≡ or_new p (same_key input st k) (link_of (find_offer st k t.offers))
unfolding upsert
link_of-upsert input p t st k = elim (Option-cases (find_offer input.store_id input.sku t.offers)) [
  | inr (o, e) ↦
      rw (e, upsert)
        (link_of-map input st k t.offers ∙ elim (Bool-cases (same_key input st k)) [
          | inl same ↦ rw (same_find input st k t.offers same, e) refl
          | inr other ↦ rw other (linked p false (link_of (find_offer st k t.offers)) refl)
        ])
  | inl e ↦ elim (Bool-cases (same_key input st k)) [
    | inl same ↦
        rw (e, upsert, same)
          (ap link_of (
              appended_self st k t.offers (inserted input p t.next_id)
                (same_find input st k t.offers same ∙ e) same)
            ∙ sym (ap (λ f. or_new p true (link_of f)) (same_find input st k t.offers same ∙ e)))
    | inr other ↦
        rw (e, upsert, other)
          (ap link_of (find_offer-append_other st k t.offers (inserted input p t.next_id) other)
            ∙ linked p false (link_of (find_offer st k t.offers)) refl)
  ]
]
  where
    linked : (p : ℕ) (same : Bool) (l : Option ℕ) → same ≡ false → l ≡ or_new p same l
    linked p false none h = refl
    linked p true none h = cc
    linked p same (some q) h = refl
