-- ===== src/Report/Key.antt =====
-- The key that a report is cached under (utils/report-cache-key.util.ts). The order that a sort of
-- texts uses, the folding of case, and the hash of a description are parameters.
pub mod Sets
pub mod Same
pub mod Shared
mod Tests
use Prim.Native.Nat.{Ordering}
use Prim.Native.String
use text.Mathlib.Text.{◌==◌ as str_eq}
use whisky_scrapper_node.Prelude.{
  distinct, ℕ, String, ◌≡◌, Option, none, some, Bool, true, false, not, ◌==◌, List, [], ◌∷◌, map,
  if◌then◌else◌, filter, flip, sort,
}
use whisky_scrapper_node.Report.Request.{
  ReportKind, best, catalog, drops, low, new, ReportWindow, ReportOptions, ReportFilter,
}

-- The order of texts by their code units, and lower case.
pub record Texts : Type 0 where
  pub compare_units : String → String → Ordering
  pub to_lower_case : String → String
  pub compare_units-flip : (a b : String) → compare_units b a ≡ flip (compare_units a b)
  pub eq-compare_units : (a b : String) → compare_units a b ≡ Ordering.eq → a ≡ b
  pub compare_units_trans :
      (a b c : String)
      → compare_units a b ≡ Ordering.lt
      → compare_units b c ≡ Ordering.lt
      → compare_units a c ≡ Ordering.lt

-- What a field of a description holds.
pub data FieldValue : Type 0 where
  of_kind : ReportKind → FieldValue
  of_window : ReportWindow → FieldValue
  of_text : String → FieldValue
  of_number : ℕ → FieldValue
  of_set : List String → FieldValue
  of_flag : FieldValue

unfoldable pub constraining : Option ℕ → Option ℕ
constraining none = none
constraining (some value) = if value == 0 then none else some value

abbrev pub value_of : {A : Type 0} → (A → FieldValue) → Option A → Option FieldValue
value_of f none = none
value_of f (some x) = some (f x)

abbrev pub flag_of : Option Bool → Option FieldValue
flag_of (some true) = some of_flag
flag_of (some false) = none
flag_of none = none

-- The names of the fields, in their fixed order.
abbrev pub field_names : List String
field_names =
    "kind" ∷ "day" ∷ "stores" ∷ "minPrice" ∷ "maxPrice" ∷ "minVolume" ∷ "maxVolume" ∷ "countries"
    ∷ "name" ∷ "types" ∷ "flavors" ∷ "excludeFlavors" ∷ "regions" ∷ "excludeRegions"
    ∷ "verifiedFacts" ∷ "window" ∷ "discountWindow" ∷ "minDiscount" ∷ []

-- The fields that are not undefined, under their names.
unfoldable pub defined : List String → List (Option FieldValue) → List (String × FieldValue)
defined [] values = []
defined (name ∷ names) [] = []
defined (name ∷ names) (none ∷ values) = defined names values
defined (name ∷ names) (some value ∷ values) = (name, value) ∷ defined names values

abbrev pub kind_text : ReportKind → String
kind_text best = "best"
kind_text catalog = "catalog"
kind_text drops = "drops"
kind_text low = "low"
kind_text new = "new"

-- The kind and the day stay readable.
abbrev pub labelled : ReportKind → Option String → String → String
labelled kind day hash =
    String.◌++◌ (kind_text kind)
      (String.◌++◌ ":" (String.◌++◌ (elim day [ none ↦ "-" | some d ↦ d ]) (String.◌++◌ ":" hash)))

module _ (texts : Texts) where
  open texts use {compare_units, to_lower_case}

  abbrev pub folded : Bool → List String → List String
  folded true values = map to_lower_case values
  folded false values = values

  unfoldable pub set : Option (List String) → Bool → Option (List String)
  set none lower = none
  set (some []) lower = none
  set (some (x ∷ xs)) lower = some (sort compare_units (distinct (folded lower (x ∷ xs))))

  unfoldable pub field_values :
      ReportKind → ReportFilter → ReportOptions → Option String → List (Option FieldValue)
  field_values kind filter options day =
      some (of_kind kind)
      ∷ value_of of_text day
      ∷ value_of of_set (set filter.stores false)
      ∷ value_of of_number filter.min_price
      ∷ value_of of_number filter.max_price
      ∷ value_of of_number filter.min_volume
      ∷ value_of of_number filter.max_volume
      ∷ value_of of_set (set filter.countries true)
      ∷ value_of of_text filter.name
      ∷ value_of of_set (set filter.types false)
      ∷ value_of of_set (set filter.flavors false)
      ∷ value_of of_set (set filter.exclude_flavors false)
      ∷ value_of of_set (set filter.regions false)
      ∷ value_of of_set (set filter.exclude_regions false)
      ∷ flag_of filter.verified_facts
      ∷ some (of_window options.window)
      ∷ value_of of_window options.discount_window
      ∷ value_of of_number (constraining options.min_discount)
      ∷ []

  -- `canonical`: the entries of the object, in their order.
  unfoldable pub canonical :
      ReportKind → ReportFilter → ReportOptions → Option String → List (String × FieldValue)
  canonical kind filter options day = defined field_names (field_values kind filter options day)

  -- `suffix`, with the hash of the JSON of a description, cut to its length, as a parameter.
  unfoldable pub suffix :
      (List (String × FieldValue) → String)
      → ReportKind
      → ReportFilter
      → ReportOptions
      → Option String
      → String
  suffix hash kind filter options day = labelled kind day (hash (canonical kind filter options day))
