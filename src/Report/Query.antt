-- ===== src/Report/Query.antt =====
-- Which current rows a report reads (core/store-product/store-product.repository.ts,
-- findCurrentRows). Of a row of the joined tables, what the conditions read; the database's matching
-- of names and its lower case, and the age in a search term, are parameters. A comparison with a
-- null is not true.
pub mod Shared
pub mod Groups
use text.Mathlib.Text.{◌==◌ as str_eq}
use whisky_scrapper_node.Prelude.{
  ℕ, String, Option, none, some, Bool, true, false, not, ◌&&◌, ◌||◌, ◌==◌, leb, List, [], ◌∷◌, map,
  filter, any,
}
use whisky_scrapper_node.Report.Page.{has}
use whisky_scrapper_node.Report.Request.{ReportFilter}
use whisky_scrapper_node.Report.Offers.{ReportCurrentRow}

pub record CatalogueRow : Type 0 where
  pub store : String
  pub price : ℕ
  pub in_stock : Bool
  pub rejected : Bool
  pub volume_ml : Option ℕ
  pub country : Option String
  pub country_source : Option String
  pub name : Option String
  pub name_orig : String
  pub age : Option ℕ
  pub type : Option String
  pub type_source : Option String
  pub flavors : List String
  pub region : Option String

pub record Matching : Type 0 where
  pub ilike : String → String → Bool
  pub lower : String → String
  pub split_age : String → Option (String × ℕ)

-- `x?.length`
abbrev pub given : Option (List String) → Bool
given none = false
given (some []) = false
given (some (x ∷ xs)) = true

abbrev pub or_none : Option (List String) → List String
or_none none = []
or_none (some xs) = xs

abbrev pub is_unknown : String → Bool
is_unknown name = str_eq name "unknown"

abbrev pub at_least : Option ℕ → Option ℕ → Bool
at_least none value = true
at_least (some bound) none = false
at_least (some bound) (some value) = leb bound value

abbrev pub at_most : Option ℕ → Option ℕ → Bool
at_most none value = true
at_most (some bound) none = false
at_most (some bound) (some value) = leb value bound

-- `value = ANY(list)`, of a value that may be null.
abbrev pub among : List String → Option String → Bool
among xs none = false
among xs (some x) = has xs x

abbrev pub any_among : List String → List String → Bool
any_among xs [] = false
any_among xs (x ∷ rest) = has xs x || any_among xs rest

abbrev pub is_null : Option String → Bool
is_null none = true
is_null (some x) = false

-- TRUSTED_FACT_SOURCES
abbrev pub trusted_fact_sources : List String
trusted_fact_sources = "manual" ∷ "kb" ∷ "store" ∷ "name" ∷ []

module _ (to_lower_case : String → String) (matching : Matching) where
  open matching use {ilike, lower, split_age}

  abbrev pub is_trusted : Option String → Bool
  is_trusted source = among trusted_fact_sources source

  -- `IS NULL`, or not a trusted source.
  abbrev pub unestablished : Option String → Option String → Bool
  unestablished fact source = is_null fact || is_null source || not (is_trusted source)

  abbrev pub lowered : Option String → Option String
  lowered none = none
  lowered (some code) = some (lower code)

  unfoldable pub in_countries : Option (List String) → CatalogueRow → Bool
  in_countries codes row =
      not (given codes)
      || (among
            (map to_lower_case (filter (λ c. not (is_unknown (to_lower_case c))) (or_none codes)))
            (lowered row.country)
          && is_trusted row.country_source)
      || (any (λ c. is_unknown (to_lower_case c)) (or_none codes)
          && unestablished row.country row.country_source)

  unfoldable pub of_types : Option (List String) → CatalogueRow → Bool
  of_types types row =
      not (given types)
      || (among (filter (λ t. not (is_unknown t)) (or_none types)) row.type
          && is_trusted row.type_source)
      || (any is_unknown (or_none types) && unestablished row.type row.type_source)

  -- A name that is null matches nothing.
  abbrev pub names_like : String → CatalogueRow → Bool
  names_like term row =
      (elim row.name [ none ↦ false | some name ↦ ilike name term ]) || ilike row.name_orig term

  abbrev pub is_aged : Option ℕ → ℕ → Bool
  is_aged none age = false
  is_aged (some n) age = n == age

  unfoldable pub is_named : Option String → CatalogueRow → Bool
  is_named none row = true
  is_named (some term) row = names_like term row || (elim (split_age term) [
    | none ↦ false
    | some (rest, age) ↦ is_aged row.age age && names_like rest row
  ])

  unfoldable pub in_regions : Option (List String) → CatalogueRow → Bool
  in_regions regions row = not (given regions) || among (or_none regions) row.region

  unfoldable pub has_flavor : Option (List String) → CatalogueRow → Bool
  has_flavor flavors row = any_among (or_none flavors) row.flavors

  unfoldable pub is_verified : Option Bool → CatalogueRow → Bool
  is_verified (some true) row = is_trusted row.type_source && is_trusted row.country_source
  is_verified (some false) row = true
  is_verified none row = true

  -- The conditions of the query, on one row.
  unfoldable pub selects : ReportFilter → CatalogueRow → Bool
  selects filter row =
      row.in_stock
      && (not row.rejected
          && ((not (given filter.stores) || has (or_none filter.stores) row.store)
              && (at_least filter.min_price (some row.price)
                  && (at_most filter.max_price (some row.price)
                      && (at_least filter.min_volume row.volume_ml
                          && (at_most filter.max_volume row.volume_ml
                              && (in_countries filter.countries row
                                  && (is_named filter.name row
                                      && (of_types filter.types row
                                          && ((not (given filter.flavors)
                                                || has_flavor filter.flavors row)
                                              && ((not (given filter.exclude_flavors)
                                                    || not (has_flavor filter.exclude_flavors row))
                                                  && (in_regions filter.regions row
                                                      && ((not (given filter.exclude_regions)
                                                            || not (
                                                            among (or_none filter.exclude_regions)
                                                            row.region))
                                                          && is_verified filter.verified_facts
                                                            row)))))))))))))

  -- `findCurrentRows`, of a table of the joined rows in the order of the query.
  unfoldable pub find_current_rows :
      List (CatalogueRow × ReportCurrentRow) → ReportFilter → List ReportCurrentRow
  find_current_rows table filter_ =
      map (λ (r : CatalogueRow × ReportCurrentRow). r.1)
        (filter (λ (r : CatalogueRow × ReportCurrentRow). selects filter_ r.0) table)
