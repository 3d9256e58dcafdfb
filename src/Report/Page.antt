-- ===== src/Report/Page.antt =====
-- The index of a report and the choice of a page (utils/report-page.util.ts). How the runtime folds
-- case, compares text in the reader's language and writes a number is a parameter.
pub mod Choice
pub mod Orders
use Prim.Native.Nat.{compare, Ordering}
use text.Mathlib.Text.{◌==◌ as str_eq}
use whisky_scrapper_node.Cache.Pages.{CachePagePick}
use whisky_scrapper_node.Prelude.{
  ℕ, zero, suc, ◌+◌, ◌-◌, ◌*◌, String, ◌≡◌, Option, none, some, Bool, true, false, not, ◌&&◌, ◌||◌,
  List, [], ◌∷◌, ◌++◌, map, if◌then◌else◌, leb, ltb, any, get_elem?, flip, or_then, sort,
}

pub data ReportSortField : Type 0 where
  abv age country_name days_discount discount_pct name previous_price price : ReportSortField
  store_name type volume_ml : ReportSortField

pub data SortOrder : Type 0 where
  asc desc : SortOrder

pub data SortValue : Type 0 where
  number : ℕ → SortValue
  words : String → SortValue

-- What the page code reads of a group; `value` is `none` where the field is null or undefined.
pub record PageGroup : Type 0 where
  pub id : String
  pub product_id : String
  pub producer_id : Option String
  pub bottler_id : Option String
  pub value : ReportSortField → Option SortValue

pub record Collation : Type 0 where
  pub locale_compare : String → String → Ordering
  pub to_lower_case : String → String
  pub written : ℕ → String
  pub locale_compare-flip : (a b : String) → locale_compare b a ≡ flip (locale_compare a b)

-- `natural`, or a field and a direction.
pub data ReportOrderKey : Type 0 where
  natural : ReportOrderKey
  by : ReportSortField → SortOrder → ReportOrderKey

unfoldable pub order_key : Option ReportSortField → SortOrder → ReportOrderKey
order_key none order = natural
order_key (some field) order = by field order

pub record ReportPageIndex : Type 0 where
  pub ids : List String
  pub producers : List (Option String)
  pub bottlers : List (Option String)
  pub orders : ReportOrderKey → List ℕ

-- `groups.map((_, position) => position)`, from a position on.
abbrev pub positions_from {ℓ} : {A : Type ℓ} → ℕ → List A → List ℕ
positions_from n [] = []
positions_from n (x ∷ xs) = n ∷ positions_from (n + 1) xs

-- The sign of a direction.
abbrev pub directed : SortOrder → Ordering → Ordering
directed asc o = o
directed desc o = flip o

module _ (collation : Collation) where
  open collation use {locale_compare, to_lower_case, written}

  abbrev pub as_text : SortValue → String
  as_text (number n) = written n
  as_text (words s) = s

  -- Numbers as such, and anything else as text without regard to case.
  unfoldable pub compare_values : SortValue → SortValue → Ordering
  compare_values (number a) (number b) = compare a b
  compare_values (number a) (words b) = locale_compare (to_lower_case (written a)) (to_lower_case b)
  compare_values (words a) b = locale_compare (to_lower_case a) (to_lower_case (as_text b))

  -- Nulls last in both directions, and ties by the identifier.
  unfoldable pub compare_by :
      SortOrder → Option SortValue → Option SortValue → String → String → Ordering
  compare_by order none none left right = locale_compare left right
  compare_by order none (some b) left right = Ordering.gt
  compare_by order (some a) none left right = Ordering.lt
  compare_by order (some a) (some b) left right =
      or_then (directed order (compare_values a b)) (locale_compare left right)

  -- The comparison of two groups; both are there.
  unfoldable pub compare_groups :
      ReportSortField → SortOrder → Option PageGroup → Option PageGroup → Ordering
  compare_groups field order none right = Ordering.eq
  compare_groups field order (some left) none = Ordering.eq
  compare_groups field order (some left) (some right) =
      compare_by order (left.value field) (right.value field) left.id right.id

  -- The comparison of two positions.
  unfoldable pub compare_at : List PageGroup → ReportSortField → SortOrder → ℕ → ℕ → Ordering
  compare_at groups field order a b =
      compare_groups field order (get_elem? groups a) (get_elem? groups b)

  unfoldable pub order : List PageGroup → ReportSortField → SortOrder → List ℕ
  order groups field direction = sort (compare_at groups field direction) (positions_from 0 groups)

  unfoldable pub orders_of : List PageGroup → ReportOrderKey → List ℕ
  orders_of groups natural = positions_from 0 groups
  orders_of groups (by field direction) = order groups field direction

  unfoldable pub build_index : List PageGroup → ReportPageIndex
  build_index groups = record {
    ids = map (λ g. g.product_id) groups;
    producers = map (λ g. g.producer_id) groups;
    bottlers = map (λ g. g.bottler_id) groups;
    orders = orders_of groups;
  }

-- The caller's favourites and blacklists.
pub record PreferenceFilterIds : Type 0 where
  pub favorites : List String
  pub blacklist_products : List String
  pub blacklist_producers : List String

pub record PageOptions : Type 0 where
  pub sort_field : Option ReportSortField
  pub order : SortOrder
  pub page : ℕ
  pub per_page : ℕ

abbrev pub has : List String → String → Bool
has set x = any (str_eq x) set

abbrev pub has_maker : List String → Option (Option String) → Bool
has_maker set none = false
has_maker set (some none) = false
has_maker set (some (some x)) = has set x

abbrev pub has_product : List String → Option String → Bool
has_product set none = false
has_product set (some x) = has set x

-- Whether a position is hidden from the caller.
unfoldable pub is_hidden : ReportPageIndex → PreferenceFilterIds → Bool → ℕ → Bool
is_hidden index preferences favorites_only position =
    has_product preferences.blacklist_products (get_elem? index.ids position)
    || has_maker preferences.blacklist_producers (get_elem? index.producers position)
    || has_maker preferences.blacklist_producers (get_elem? index.bottlers position)
    || (favorites_only && not (has_product preferences.favorites (get_elem? index.ids position)))

-- The loop of `select` over an order, with what it has picked and counted.
unfoldable pub select_from : (ℕ → Bool) → ℕ → ℕ → List ℕ → CachePagePick → CachePagePick
select_from hidden offset end [] picked = picked
select_from hidden offset end (position ∷ rest) picked = select_from hidden offset end rest (
    if hidden position then picked else record {
      positions =
          if leb offset picked.total && ltb picked.total end
          then picked.positions ++ position ∷ []
          else picked.positions;
      total = picked.total + 1;
    })

-- `select`. The end of page 0 is 0, so that page is empty, as in the code.
unfoldable pub select : ReportPageIndex → PreferenceFilterIds → Bool → PageOptions → CachePagePick
select index preferences favorites_only options =
    select_from (is_hidden index preferences favorites_only) ((options.page - 1) * options.per_page)
      (options.page * options.per_page) (index.orders (order_key options.sort_field options.order))
      (record { positions = []; total = 0 })
