-- ===== src/Persist/Priced.antt =====
-- What a whole run leaves in the prices of its day.
use mathlib.Core.Option.{some-injective}
use whisky_scrapper_node.Prelude.{
  ℕ, String, ◌≡◌, ap, inl, inr, Option, some, Bool, true, false, ==_iff, List, [], ◌∷◌, All, arith,
  Bool-cases,
}
use whisky_scrapper_node.Persist.Offers.{Offer, OfferTable, is_offer, find_offer}
use whisky_scrapper_node.Persist.Prices.{PriceRow, is_price, is_out, mark_out_of_stock_for_day}
use whisky_scrapper_node.Persist.Swept.{after}
use whisky_scrapper_node.Persist.{ProductSnapshot, Collation, Catalogue, persist}

-- An offer that is found out of stock is one of those that are.
is_out-found :
    (store_id k : String) (os : List Offer) (o : Offer)
    → find_offer store_id k os ≡ some o
    → o.in_stock ≡ false
    → is_out store_id os o.id ≡ true
is_out-found store_id k [] o found h = cc
is_out-found store_id k (x ∷ os) o found h = elim (Bool-cases (is_offer store_id k x)) [
  | inl mine ↦
      let same : x ≡ o = some-injective x o (rw mine at found) in
      ground (
        arith,
        ==_iff x.id o.id,
        ap (λ (y : Offer). y.id) same,
        ap (λ (y : Offer). y.in_stock) same,
      )
  | inr other ↦ ground (arith, is_out-found store_id k os o (rw other at found) h)
]

-- A price that does not say that its offer is available.
abbrev pub Closed : ℕ → String → PriceRow → Type 0
Closed id day r = is_price id day r ≡ true → r.stated.in_stock ≡ false

mark_out_of_stock_for_day-Closed :
    (store_id day : String) (os : List Offer) (id : ℕ) (rows : List PriceRow)
    → is_out store_id os id ≡ true
    → All (Closed id day) (mark_out_of_stock_for_day store_id day os rows)
unfolding mark_out_of_stock_for_day
mark_out_of_stock_for_day-Closed store_id day os id [] out = tt
mark_out_of_stock_for_day-Closed store_id day os id (r ∷ rows) out = (
  λ e. ground (arith, ==_iff r.store_product_id id),
  mark_out_of_stock_for_day-Closed store_id day os id rows out,
)

module _ (catalogue : Catalogue) (locale : Collation) (key : ProductSnapshot → Option String)
    (store_id : String) (in_stock : List ProductSnapshot) (oos_skus : List String) (day : String)
    (complete : Bool) (t : OfferTable) (prices : List PriceRow) (c : catalogue.State) where
  abbrev pub offers_after : List Offer
  offers_after =
      (after catalogue locale key store_id in_stock oos_skus day complete t prices c).offers

  -- Where an offer of the store is out of stock after a run, no price of that offer for the day of
  -- the run says that it is available.
  pub persist-priced :
      (k : String) (o : Offer)
      → find_offer store_id k offers_after ≡ some o
      → o.in_stock ≡ false
      → All
          (Closed o.id day)
          (persist catalogue locale key store_id in_stock oos_skus day complete t prices c).2
  unfolding persist
  persist-priced k o found h =
      mark_out_of_stock_for_day-Closed store_id day offers_after o.id _
        (is_out-found store_id k offers_after o found h)
