-- ===== src/Report/Build/Tests.antt =====
-- Reports of a few rows.
use whisky_scrapper_node.Prelude.{
  ℕ, String, ◌-◌, ◌*◌, ◌/◌, refl, none, some, false, List, [], ◌∷◌, map, All,
}
use whisky_scrapper_node.Report.Offers.{ReportCurrentRow, ReportRow, Runtime, enrich}
use whisky_scrapper_node.Report.Page.{asc}
use whisky_scrapper_node.Report.Request.{best, week, ReportOptions, ReportFilter}
use whisky_scrapper_node.Report.Build.{Prices, build_groups}
use whisky_scrapper_node.Report.Build.Led.{Led, Names, build_groups-Led}
use whisky_scrapper_node.Report.Tests.{by_length}

abbrev runtime : Runtime
runtime = record {
  collation = by_length;
  percent = λ current reference. 100 * (reference - current) / reference;
}

abbrev row_of : String → String → String → ℕ → ReportCurrentRow
row_of id product_id store asked = record {
  id = id;
  product_id = product_id;
  name = none;
  name_orig = product_id;
  store_slug = store;
  store_name = store;
  price = asked;
  previous_price = none;
  first_seen = 700;
  captured_date = 705;
}

-- One product in two stores and another in one.
abbrev current : List ReportCurrentRow
current = row_of "1" "p" "a" 90 ∷ row_of "22" "p" "b" 80 ∷ row_of "333" "q" "a" 50 ∷ []

abbrev prices : Prices
prices = record {
  extremes_min = λ since id. none;
  extremes_max = λ since id. none;
  price_since = λ id. none;
}

abbrev no_bounds : ReportFilter
no_bounds = record {
  stores = none;
  min_price = none;
  max_price = none;
  min_volume = none;
  max_volume = none;
  flavors = none;
  exclude_flavors = none;
  types = none;
  countries = none;
  name = none;
  regions = none;
  exclude_regions = none;
  verified_facts = none;
}

abbrev options : ReportOptions
options = record {
  window = week;
  discount_window = none;
  min_discount = none;
  sort = none;
  order = asc;
  page = 1;
  per_page = 50;
}

current-Names : All (λ top. All (Names top) current) current
current-Names = (
  ((λ e. refl), ((λ e. absurd (cc e)), ((λ e. absurd (cc e)), tt))),
  (
    ((λ e. absurd (cc e)), ((λ e. refl), ((λ e. absurd (cc e)), tt))),
    (((λ e. absurd (cc e)), ((λ e. absurd (cc e)), ((λ e. refl), tt))), tt),
  ),
)

build_groups-Led_example :
    All Led (build_groups runtime prices 705 (some 705) best no_bounds options (λ f. current))
build_groups-Led_example =
    build_groups-Led runtime prices 705 (some 705) best no_bounds options (λ f. current)
      current-Names

abbrev listed : List ReportRow
listed = map (λ row. enrich runtime row none false none none) current
