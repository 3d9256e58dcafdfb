-- ===== src/Report/Key/Tests.antt =====
-- Keys of two requests.
use Prim.Native.Nat.{compare, Ordering}
use Prim.Native.Char.{code}
use text.Mathlib.TextEquality.{codes_equal}
use whisky_scrapper_node.Prelude.{
  ℕ, String, ◌≡◌, ◌⊎◌, inl, inr, refl, none, some, true, false, ◌-◌, ◌*◌, ◌/◌, length, distinct,
  sort, insert_sorted, List, [], ◌∷◌, flip, or_then, or_then-flip, compare-flip, arith,
}
use whisky_scrapper_node.Report.Page.{asc, desc, price}
use whisky_scrapper_node.Report.Request.{low, month, ReportFilter}
use whisky_scrapper_node.Report.Key.{Texts, canonical, field_values, set, constraining}
use whisky_scrapper_node.Report.Key.Shared.{Request}
use whisky_scrapper_node.Report.Tests.{by_length}
use whisky_scrapper_node.Report.Offers.{
  ReportCurrentRow, ReportGroup, Runtime, wrap_offers, apply_min_discount, enrich, discount_pct,
}
use whisky_scrapper_node.Report.Build.{
  Prices, build_groups, selection_filter, build_kind, low_groups,
}
use whisky_scrapper_node.Report.Query.{
  CatalogueRow, Matching, find_current_rows, selects, in_countries, is_named, of_types, in_regions,
  is_verified,
}
use whisky_scrapper_node.Report.Query.Groups.{canonical-build_groups}

-- Texts by the numbers of their characters.
abbrev by_code : String → String → Ordering
by_code String.[] String.[] = Ordering.eq
by_code String.[] (String.◌∷◌ d t) = Ordering.lt
by_code (String.◌∷◌ c s) String.[] = Ordering.gt
by_code (String.◌∷◌ c s) (String.◌∷◌ d t) = or_then (compare (code c) (code d)) (by_code s t)

by_code-flip : (a b : String) → by_code b a ≡ flip (by_code a b)
by_code-flip String.[] String.[] = refl
by_code-flip String.[] (String.◌∷◌ d t) = refl
by_code-flip (String.◌∷◌ c s) String.[] = refl
by_code-flip (String.◌∷◌ c s) (String.◌∷◌ d t) =
    or_then-flip (compare (code c) (code d)) (by_code s t) (compare-flip (code c) (code d))
      (by_code-flip s t)

or_then-eq : (a b : Ordering) → or_then a b ≡ Ordering.eq → (a ≡ Ordering.eq) × (b ≡ Ordering.eq)
or_then-eq Ordering.lt b h = absurd (cc h)
or_then-eq Ordering.gt b h = absurd (cc h)
or_then-eq Ordering.eq b h = (refl, h)

eq-by_code : (a b : String) → by_code a b ≡ Ordering.eq → a ≡ b
eq-by_code String.[] String.[] h = refl
eq-by_code String.[] (String.◌∷◌ d t) h = absurd (cc h)
eq-by_code (String.◌∷◌ c s) String.[] h = absurd (cc h)
eq-by_code (String.◌∷◌ c s) (String.◌∷◌ d t) h =
    let (x, y) = or_then-eq (compare (code c) (code d)) (by_code s t) h in
    λ i. String.◌∷◌ (codes_equal c d x i) (eq-by_code s t y i)

or_then-lt :
    (a b : Ordering)
    → or_then a b ≡ Ordering.lt
    → (a ≡ Ordering.lt) ⊎ ((a ≡ Ordering.eq) × (b ≡ Ordering.lt))
or_then-lt Ordering.lt b h = inl refl
or_then-lt Ordering.gt b h = absurd (cc h)
or_then-lt Ordering.eq b h = inr (refl, h)

compare_trans :
    (x y z : ℕ) (a b c : Ordering)
    → or_then (compare x y) a ≡ Ordering.lt
    → or_then (compare y z) b ≡ Ordering.lt
    → (a ≡ Ordering.lt → b ≡ Ordering.lt → c ≡ Ordering.lt)
    → or_then (compare x z) c ≡ Ordering.lt
compare_trans x y z a b c h k rest = elim (or_then-lt (compare x y) a h) [
  | inl p ↦ elim (or_then-lt (compare y z) b k) [
    | inl q ↦ let e : compare x z ≡ Ordering.lt = ground (arith, p, q) in rw e refl
    | inr (q, r) ↦ let e : compare x z ≡ Ordering.lt = ground (arith, p, q) in rw e refl
  ]
  | inr (p, s) ↦ elim (or_then-lt (compare y z) b k) [
    | inl q ↦ let e : compare x z ≡ Ordering.lt = ground (arith, p, q) in rw e refl
    | inr (q, r) ↦ let e : compare x z ≡ Ordering.eq = ground (arith, p, q) in rw e (rest s r)
  ]
]

by_code_trans :
    (a b c : String)
    → by_code a b ≡ Ordering.lt
    → by_code b c ≡ Ordering.lt
    → by_code a c ≡ Ordering.lt
by_code_trans String.[] String.[] c h k = k
by_code_trans String.[] (String.◌∷◌ y b) String.[] h k = absurd (cc k)
by_code_trans String.[] (String.◌∷◌ y b) (String.◌∷◌ z c) h k = refl
by_code_trans (String.◌∷◌ x a) String.[] c h k = absurd (cc h)
by_code_trans (String.◌∷◌ x a) (String.◌∷◌ y b) String.[] h k = absurd (cc k)
by_code_trans (String.◌∷◌ x a) (String.◌∷◌ y b) (String.◌∷◌ z c) h k =
    compare_trans (code x) (code y) (code z) (by_code a b) (by_code b c) (by_code a c) h k
      (by_code_trans a b c)

abbrev texts : Texts
texts = record {
  compare_units = by_code;
  to_lower_case = λ s. s;
  compare_units-flip = by_code-flip;
  eq-compare_units = eq-by_code;
  compare_units_trans = by_code_trans;
}

-- Two stores in one order and in the other, the first of them twice, and another page.
abbrev asked : ReportFilter
asked = record {
  stores = some ("b" ∷ "a" ∷ "b" ∷ []);
  min_price = none;
  max_price = some 90;
  min_volume = none;
  max_volume = none;
  flavors = some [];
  exclude_flavors = none;
  types = none;
  countries = none;
  name = none;
  regions = none;
  exclude_regions = none;
  verified_facts = some false;
}

abbrev first : Request
first = record {
  kind = low;
  filter = asked;
  options = record {
    window = month;
    discount_window = none;
    min_discount = some 0;
    sort = none;
    order = asc;
    page = 1;
    per_page = 50;
  };
  day = none;
}

abbrev second : Request
second = record {
  kind = low;
  filter = record asked { stores = some ("a" ∷ "b" ∷ []); flavors = none; verified_facts = none };
  options = record {
    window = month;
    discount_window = none;
    min_discount = none;
    sort = some price;
    order = desc;
    page = 2;
    per_page = 50;
  };
  day = none;
}

abbrev runtime : Runtime
runtime = record {
  collation = by_length;
  percent = λ current reference. 100 * (reference - current) / reference;
}

abbrev prices : Prices
prices = record {
  extremes_min = λ since id. some 60;
  extremes_max = λ since id. none;
  price_since = λ id. none;
}

abbrev matching : Matching
matching = record { ilike = λ name term. false; lower = λ s. s; split_age = λ term. none }

-- An offer of store "a", and the row of a report that it is.
abbrev offered : List (CatalogueRow × ReportCurrentRow)
offered =
    (
      record {
        store = "a";
        price = 60;
        in_stock = true;
        rejected = false;
        volume_ml = some 700;
        country = none;
        country_source = none;
        name = none;
        name_orig = "W";
        age = none;
        type = none;
        type_source = none;
        flavors = [];
        region = none;
      },
      record {
        id = "1";
        product_id = "p";
        name = none;
        name_orig = "W";
        store_slug = "a";
        store_name = "A";
        price = 60;
        previous_price = some 90;
        first_seen = 700;
        captured_date = 705;
      },
    )
    ∷ []

abbrev groups : Request → List ReportGroup
groups r =
    build_groups runtime prices 705 (some 705) r.kind r.filter r.options
      (find_current_rows texts.to_lower_case matching offered)

one_group : length (groups first) ≡ 1
unfolding build_groups find_current_rows selects selection_filter in_countries is_named of_types
    in_regions is_verified build_kind low_groups sort insert_sorted wrap_offers apply_min_discount
    enrich discount_pct
one_group = refl

one_key :
    canonical texts first.kind first.filter first.options first.day
    ≡ canonical texts second.kind second.filter second.options second.day
unfolding canonical field_values set constraining distinct sort insert_sorted
one_key = refl

canonical-build_groups_example : groups first ≡ groups second
canonical-build_groups_example =
    canonical-build_groups runtime prices 705 texts matching (some 705) offered first second one_key
