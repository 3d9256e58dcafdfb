-- ===== src/Persist.antt =====
-- What a run of a store's scrape writes (scrape/persist/scrape-persist.service.ts). The bottlings are
-- found and created by statements that are parameters; what a run adds to them (facts, flavors, the
-- knowledge base) is left out, and so are log lines.
pub mod Offers
pub mod Prices
pub mod Loop
pub mod Marked
pub mod Swept
pub mod Priced
mod Tests
use Prim.Native.Char.{nul}
use Prim.Native.Nat.{Ordering}
use Prim.Native.String
use text.Mathlib.Text.{◌==◌ as str_eq}
use whisky_scrapper_node.Prelude.{
  ℕ, suc, String, ◌+◌, Option, none, some, Bool, true, false, not, List, [], ◌∷◌, ◌++◌, map, filter,
  length, if◌then◌else◌, sort,
}
use Offers.{
  OfferTable, StoreProductUpsertInput, StoreProductUpsertResult, upsert, upsert_from_scrape,
  mem_text, existing_skus, mark_out_of_stock_by_skus, mark_out_of_stock_except,
}
use Prices.{PriceSnapshotUpsertInput, PriceRow, upsert_for_date, mark_out_of_stock_for_day}

pub record ProductSnapshot : Type 0 where
  pub store_sku : String
  pub url : String
  pub name : String
  pub match_key : Option String
  pub stated : PriceSnapshotUpsertInput

pub record ResolvedSnapshot : Type 0 where
  pub snap : ProductSnapshot
  pub match_key : Option String

abbrev pub is_none : {A : Type 0} → Option A → Bool
is_none none = true
is_none (some a) = false

-- `localeCompare`
abbrev pub Collation : Type 0
Collation = String → String → Ordering

-- The bottling that a snapshot would create.
pub record ProductCanonicalInput : Type 0 where
  pub match_key : Option String
  pub snap : ProductSnapshot

abbrev pub canonical_input : ResolvedSnapshot → ProductCanonicalInput
canonical_input item = record { match_key = item.match_key; snap = item.snap }

pub record Catalogue : Type 1 where
  pub State : Type 0
  pub find_or_create_by_match_keys :
      List ProductCanonicalInput → State → List (String × ℕ) × ℕ × State
  pub create_unmatched : ProductCanonicalInput → State → ℕ × State

-- `a.matchKey === b.matchKey`, then null last.
unfoldable pub compare_keys : Collation → ResolvedSnapshot → ResolvedSnapshot → Ordering
compare_keys locale a b = elim a.match_key [
  | none ↦ elim b.match_key [
    | none ↦ locale a.snap.store_sku b.snap.store_sku
    | some l ↦ Ordering.gt
  ]
  | some k ↦ elim b.match_key [
    | none ↦ Ordering.lt
    | some l ↦ if str_eq k l then locale a.snap.store_sku b.snap.store_sku else locale k l
  ]
]

-- `snap.matchKey ?? key(…)`
abbrev pub resolved : (ProductSnapshot → Option String) → ProductSnapshot → ResolvedSnapshot
resolved key snap = record {
  snap = snap;
  match_key = elim snap.match_key [ none ↦ key snap | some k ↦ some k ];
}

unfoldable pub resolve_keys :
    Collation → (ProductSnapshot → Option String) → List ProductSnapshot → List ResolvedSnapshot
resolve_keys locale key in_stock = sort (compare_keys locale) (map (resolved key) in_stock)

unfoldable pub canonical_slot : ProductSnapshot → Option String → String
canonical_slot snap none = String.◌∷◌ nul snap.store_sku
canonical_slot snap (some key) = key

-- The first input of each key.
abbrev pub holds_key : String → List ProductCanonicalInput → Bool
holds_key k [] = false
holds_key k (i ∷ inputs) = elim i.match_key [
  | none ↦ holds_key k inputs
  | some l ↦ if str_eq k l then true else holds_key k inputs
]

unfoldable pub by_key :
    List ResolvedSnapshot → List ProductCanonicalInput → List ProductCanonicalInput
by_key [] inputs = inputs
by_key (item ∷ items) inputs = by_key items (elim item.match_key [
  | none ↦ inputs
  | some k ↦ if holds_key k inputs then inputs else inputs ++ canonical_input item ∷ []
])

abbrev pub or_empty : Option String → String
or_empty none = ""
or_empty (some k) = k

-- A slot that is set later hides one that was set before.
abbrev pub Slots : Type 0
Slots = List (String × ℕ)

abbrev pub get_slot : String → Slots → Option ℕ
get_slot k [] = none
get_slot k ((slot, id) ∷ slots) = if str_eq slot k then some id else get_slot k slots

pub record PersistCounts : Type 0 where
  pub stored : ℕ
  pub added : ℕ
  pub added_products : ℕ
  pub removed : ℕ

module _ (catalogue : Catalogue) where
  open catalogue use {State, find_or_create_by_match_keys, create_unmatched}

  -- The loop over the unmatchable ones.
  unfoldable pub create_each : List ResolvedSnapshot → Slots → State → Slots × State
  create_each [] slots c = (slots, c)
  create_each (item ∷ items) slots c =
      let (id, c') = create_unmatched (canonical_input item) c in
      create_each items ((canonical_slot item.snap none, id) ∷ slots) c'

  unfoldable pub resolve_canonical :
      Collation → List ResolvedSnapshot → List String → State → Slots × ℕ × State
  resolve_canonical locale work known c =
      let fresh =
        filter (λ (item : ResolvedSnapshot). not (mem_text item.snap.store_sku known)) work in
      let unmatchable = filter (λ (item : ResolvedSnapshot). is_none item.match_key) fresh in
      let sorted =
        sort (λ (a b : ProductCanonicalInput). locale (or_empty a.match_key) (or_empty b.match_key))
          (by_key fresh []) in
      let (ids, added, c') = find_or_create_by_match_keys sorted c in
      let (slots, c'') = create_each unmatchable ids c' in (slots, added + length unmatchable, c'')

  -- What the write loop carries along.
  pub record Written : Type 0 where
    pub table : OfferTable
    pub prices : List PriceRow
    pub bottlings : State
    pub stored : ℕ
    pub added : ℕ
    pub added_products : ℕ

  abbrev pub input_of : String → String → ProductSnapshot → Option ℕ → StoreProductUpsertInput
  input_of store_id captured_on snap proposed = record {
    store_id = store_id;
    product_id = proposed;
    sku = snap.store_sku;
    url = snap.url;
    name_orig = snap.name;
    seen_on = captured_on;
  }

  -- The fallback where a stored SKU turned out not to be there.
  unfoldable pub offer_or_insert :
      String
      → ProductSnapshot
      → String
      → Option StoreProductUpsertResult × OfferTable
      → State
      → StoreProductUpsertResult × Bool × OfferTable × State
  offer_or_insert store_id snap captured_on (some row, t) c = (row, false, t, c)
  offer_or_insert store_id snap captured_on (none, t) c =
      let (created, c') =
        create_unmatched (canonical_input (record { snap = snap; match_key = none })) c in
      let (row, t') = upsert (input_of store_id captured_on snap (some created)) created t in
      (row, true, t', c')

  -- The offer, and whether a bottling had to be created for it.
  unfoldable pub upsert_offer :
      String
      → ProductSnapshot
      → Option ℕ
      → String
      → OfferTable
      → State
      → StoreProductUpsertResult × Bool × OfferTable × State
  upsert_offer store_id snap proposed captured_on t c =
      offer_or_insert store_id snap captured_on
        (upsert_from_scrape (input_of store_id captured_on snap proposed) t) c

  unfoldable pub proposed_for : List String → Slots → ResolvedSnapshot → Option ℕ
  proposed_for known slots item =
      if mem_text item.snap.store_sku known
      then none
      else get_slot (canonical_slot item.snap item.match_key) slots

  -- Facts and flavors of a bottling are other tables, and are left out.
  unfoldable pub write_one :
      String → List String → Slots → String → ResolvedSnapshot → Written → Written
  write_one store_id known slots captured_on item w =
      let (offer, created_product, t, c) =
        upsert_offer store_id item.snap (proposed_for known slots item) captured_on w.table
          w.bottlings in
      record {
        table = t;
        prices = upsert_for_date offer.id captured_on item.snap.stated w.prices;
        bottlings = c;
        stored = w.stored + 1;
        added = if offer.is_new then w.added + 1 else w.added;
        added_products = if created_product then w.added_products + 1 else w.added_products;
      }

  unfoldable pub write_each :
      String → List String → Slots → String → List ResolvedSnapshot → Written → Written
  write_each store_id known slots captured_on [] w = w
  write_each store_id known slots captured_on (item ∷ items) w =
      write_each store_id known slots captured_on items
        (write_one store_id known slots captured_on item w)

  -- How many offers were flagged; a walk that reached the end earns the sweep.
  unfoldable pub flag_out_of_stock :
      String → List String → List String → Bool → OfferTable → ℕ × OfferTable
  flag_out_of_stock store_id in_stock_skus oos_skus complete t =
      if complete
      then mark_out_of_stock_except store_id in_stock_skus t
      else mark_out_of_stock_by_skus store_id oos_skus t

  -- A number of offers in stock before the run, for a warning only, is left out too.
  unfoldable pub persist :
      Collation
      → (ProductSnapshot → Option String)
      → String
      → List ProductSnapshot
      → List String
      → String
      → Bool
      → OfferTable
      → List PriceRow
      → State
      → PersistCounts × OfferTable × List PriceRow × State
  persist locale key store_id in_stock oos_skus captured_on complete t prices c =
      let known = existing_skus store_id t in
      let work = resolve_keys locale key in_stock in
      let (slots, created, c') = resolve_canonical locale work known c in
      let w = write_each store_id known slots captured_on work (record {
        table = t;
        prices = prices;
        bottlings = c';
        stored = 0;
        added = 0;
        added_products = created;
      }) in
      let (removed, t') =
        flag_out_of_stock store_id (map (λ (s : ProductSnapshot). s.store_sku) in_stock) oos_skus
          complete w.table in
      (
        record {
          stored = w.stored;
          added = w.added;
          added_products = w.added_products;
          removed = removed;
        },
        t',
        mark_out_of_stock_for_day store_id captured_on t'.offers w.prices,
        w.bottlings,
      )
