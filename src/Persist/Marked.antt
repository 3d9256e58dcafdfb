-- ===== src/Persist/Marked.antt =====
-- What flagging makes of an offer, and what a run sees of a SKU.
use Prim.Native.Nat.{Ordering}
use text.Mathlib.Text.{◌==◌ as str_eq}
use text.Mathlib.TextEquality.{eq_iff}
use whisky_scrapper_node.Prelude.{
  String, ◌≡◌, refl, sym, ap, ◌∙◌, inl, inr, Option, none, some, Bool, true, false, not, ◌&&◌, ◌||◌,
  List, [], ◌∷◌, map, filter, any, if◌then◌else◌, arith, Option-cases, sort, insert_sorted,
  Ordering-cases,
}
use whisky_scrapper_node.Persist.Offers.{
  Offer, OfferTable, is_offer, find_offer, mem_text, flagged, existing_skus,
  mark_out_of_stock_by_skus, mark_out_of_stock_except,
}
use whisky_scrapper_node.Persist.Offers.Found.{
  map_found, find_offer-map, found_is, stock_of, link_of,
}
use whisky_scrapper_node.Persist.Loop.{is_item}
use whisky_scrapper_node.Persist.{
  ProductSnapshot, Collation, Catalogue, compare_keys, resolved, resolve_keys, flag_out_of_stock,
}

-- Out of stock where it is flagged.
abbrev pub swept : Bool → Option Bool → Option Bool
swept flag none = none
swept flag (some v) = if flag then some false else some v

pub swept-false : (s : Option Bool) → swept false s ≡ s
swept-false none = refl
swept-false (some v) = refl

module _ (store_id : String) (test : String → Bool) where
  flagged-key :
      (st k : String) (o : Offer) → is_offer st k (flagged store_id test o) ≡ is_offer st k o
  flagged-key st k o = ground arith

  stock_of-flagged :
      (st k : String) (o : Offer)
      → is_offer st k o ≡ true
      → stock_of (some (flagged store_id test o))
        ≡ swept (str_eq store_id st && test k) (some o.in_stock)
  stock_of-flagged st k o h =
      let a : o.store_id ≡ st = (eq_iff o.store_id st).0 (ground arith) in
      let b : test o.sku ≡ test k = ap test ((eq_iff o.sku k).0 (ground arith)) in
      ground (arith, eq_iff o.store_id store_id, eq_iff store_id st)

  stock_of-map-flagged :
      (st k : String) (os : List Offer)
      → stock_of (find_offer st k (map (flagged store_id test) os))
        ≡ swept (str_eq store_id st && test k) (stock_of (find_offer st k os))
  stock_of-map-flagged st k os =
      ap stock_of (find_offer-map (flagged store_id test) st k os (flagged-key st k)) ∙ found
    where
      found :
          stock_of (map_found (flagged store_id test) (find_offer st k os))
          ≡ swept (str_eq store_id st && test k) (stock_of (find_offer st k os))
      found = elim (Option-cases (find_offer st k os)) [
        | inl e ↦ rw e refl
        | inr (o, e) ↦ rw e (stock_of-flagged st k o (found_is st k os o e))
      ]

  link_of-map-flagged :
      (st k : String) (os : List Offer)
      → link_of (find_offer st k (map (flagged store_id test) os)) ≡ link_of (find_offer st k os)
  link_of-map-flagged st k os =
      ap link_of (find_offer-map (flagged store_id test) st k os (flagged-key st k)) ∙ found
    where
      found :
          link_of (map_found (flagged store_id test) (find_offer st k os))
          ≡ link_of (find_offer st k os)
      found = elim (Option-cases (find_offer st k os)) [
        | inl e ↦ rw e refl
        | inr (o, e) ↦ rw e (ground arith)
      ]

-- Which SKUs of the store a run flags.
abbrev pub to_flag : Bool → List String → List String → String → Bool
to_flag complete seen oos k = if complete then not (mem_text k seen) else mem_text k oos

module _ (catalogue : Catalogue) where
  pub stock_of-flag_out_of_stock :
      (store_id : String) (seen oos : List String) (complete : Bool) (t : OfferTable)
      (st k : String)
      → stock_of
          (find_offer st k (flag_out_of_stock catalogue store_id seen oos complete t).1.offers)
        ≡ swept
            (str_eq store_id st && to_flag complete seen oos k)
            (stock_of (find_offer st k t.offers))
  unfolding flag_out_of_stock mark_out_of_stock_by_skus mark_out_of_stock_except
  stock_of-flag_out_of_stock store_id seen oos true t st k =
      stock_of-map-flagged store_id (λ s. not (mem_text s seen)) st k t.offers
  stock_of-flag_out_of_stock store_id seen [] false t st k = sym (
      ap (λ b. swept b (stock_of (find_offer st k t.offers))) (no_flag (str_eq store_id st))
      ∙ swept-false (stock_of (find_offer st k t.offers)))
    where
      no_flag : (b : Bool) → b && false ≡ false
      no_flag b = ground arith
  stock_of-flag_out_of_stock store_id seen (s ∷ oos) false t st k =
      stock_of-map-flagged store_id (λ x. mem_text x (s ∷ oos)) st k t.offers

  pub link_of-flag_out_of_stock :
      (store_id : String) (seen oos : List String) (complete : Bool) (t : OfferTable)
      (st k : String)
      → link_of
          (find_offer st k (flag_out_of_stock catalogue store_id seen oos complete t).1.offers)
        ≡ link_of (find_offer st k t.offers)
  unfolding flag_out_of_stock mark_out_of_stock_by_skus mark_out_of_stock_except
  link_of-flag_out_of_stock store_id seen oos true t st k =
      link_of-map-flagged store_id (λ s. not (mem_text s seen)) st k t.offers
  link_of-flag_out_of_stock store_id seen [] false t st k = refl
  link_of-flag_out_of_stock store_id seen (s ∷ oos) false t st k =
      link_of-map-flagged store_id (λ x. mem_text x (s ∷ oos)) st k t.offers

any-insert_sorted :
    {A : Type 0} (f : A → Bool) (cmp : A → A → Ordering) (x : A) (xs : List A)
    → any f (insert_sorted cmp x xs) ≡ f x || any f xs
unfolding insert_sorted
any-insert_sorted f cmp x [] = refl
any-insert_sorted f cmp x (y ∷ ys) = elim (Ordering-cases (cmp x y)) [
  | inr (inl e) ↦ rw (e, insert_sorted) refl
  | inr (inr e) ↦ rw (e, insert_sorted) refl
  | inl e ↦
      rw (e, insert_sorted)
        (ap (λ b. f y || b) (any-insert_sorted f cmp x ys) ∙ or_swap (f y) (f x) (any f ys))
]
  where
    or_swap : (a b c : Bool) → a || (b || c) ≡ b || (a || c)
    or_swap a b c = ground arith

any-sort :
    {A : Type 0} (f : A → Bool) (cmp : A → A → Ordering) (xs : List A)
    → any f (sort cmp xs) ≡ any f xs
unfolding sort
any-sort f cmp [] = refl
any-sort f cmp (x ∷ xs) =
    any-insert_sorted f cmp x (sort cmp xs) ∙ ap (λ b. f x || b) (any-sort f cmp xs)

any-map-resolved :
    (key : ProductSnapshot → Option String) (k : String) (xs : List ProductSnapshot)
    → any (is_item k) (map (resolved key) xs) ≡ mem_text k (map (λ s. s.store_sku) xs)
any-map-resolved key k [] = refl
any-map-resolved key k (x ∷ xs) =
    ground (arith, any-map-resolved key k xs, eq_iff x.store_sku k, eq_iff k x.store_sku)

-- The run has an item for a SKU exactly when a snapshot has that SKU.
pub any-resolve_keys :
    (locale : Collation) (key : ProductSnapshot → Option String) (k : String)
    (in_stock : List ProductSnapshot)
    → any (is_item k) (resolve_keys locale key in_stock)
      ≡ mem_text k (map (λ s. s.store_sku) in_stock)
unfolding resolve_keys
any-resolve_keys locale key k in_stock =
    any-sort (is_item k) (compare_keys locale) (map (resolved key) in_stock)
    ∙ any-map-resolved key k in_stock

-- A SKU without an offer is none of the stored ones.
pub existing_skus-missing :
    (store_id k : String) (t : OfferTable)
    → find_offer store_id k t.offers ≡ none
    → mem_text k (existing_skus store_id t) ≡ false
unfolding existing_skus
existing_skus-missing store_id k t h = missing t.offers h
  where
    missing :
        (os : List Offer)
        → find_offer store_id k os ≡ none
        → mem_text k (map (λ o. o.sku) (filter (λ o. str_eq o.store_id store_id) os)) ≡ false
    missing [] e = refl
    missing (o ∷ os) e = ground (arith, missing os, eq_iff k o.sku, eq_iff o.sku k)
