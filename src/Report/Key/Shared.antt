-- ===== src/Report/Key/Shared.antt =====
-- When two requests share a key.
use whisky_scrapper_node.Prelude.{
  ℕ, String, ◌≡◌, ◌↔◌, refl, ap, Option, none, some, true, false, List, [], ◌∷◌, get_elem?,
}
use whisky_scrapper_node.Report.Request.{
  ReportKind, catalog, ReportWindow, week, ReportOptions, ReportFilter,
}
use whisky_scrapper_node.Report.Key.{
  Texts, FieldValue, of_kind, of_window, of_text, of_number, of_set, value_of, field_names, defined,
  field_values, canonical, labelled, suffix,
}
use whisky_scrapper_node.Report.Key.Sets.{SameSet, set_iff}
use whisky_scrapper_node.Report.Key.Same.{
  defined_injective, field_names-Apart, number_back, text_back, set_back, window_back, minimum,
  constraining_iff, verified, flag_iff,
}

pub record Request : Type 0 where
  pub kind : ReportKind
  pub filter : ReportFilter
  pub options : ReportOptions
  pub day : Option String

-- The value at a place of a list of optional values.
abbrev slot : ℕ → List (Option FieldValue) → Option FieldValue
slot n xs = elim (get_elem? xs n) [ none ↦ none | some v ↦ v ]

abbrev kind_in : Option FieldValue → ReportKind
kind_in (some (of_kind kind)) = kind
kind_in _ = catalog

abbrev chosen_in : Option FieldValue → ReportWindow
chosen_in (some (of_window window)) = window
chosen_in _ = week

module _ (texts : Texts) where
  -- What the query cannot tell apart: the same kind, day, bounds, name and windows, the same sets of
  -- values whatever their order and repetition, of countries also whatever their case, verified
  -- facts alike, and one minimum of the discount, where none is 0.
  abbrev pub SameRequest : Request → Request → Type 0
  SameRequest a b =
      (a.kind ≡ b.kind)
      × (a.day ≡ b.day)
      × SameSet texts false a.filter.stores b.filter.stores
      × (a.filter.min_price ≡ b.filter.min_price)
      × (a.filter.max_price ≡ b.filter.max_price)
      × (a.filter.min_volume ≡ b.filter.min_volume)
      × (a.filter.max_volume ≡ b.filter.max_volume)
      × SameSet texts true a.filter.countries b.filter.countries
      × (a.filter.name ≡ b.filter.name)
      × SameSet texts false a.filter.types b.filter.types
      × SameSet texts false a.filter.flavors b.filter.flavors
      × SameSet texts false a.filter.exclude_flavors b.filter.exclude_flavors
      × SameSet texts false a.filter.regions b.filter.regions
      × SameSet texts false a.filter.exclude_regions b.filter.exclude_regions
      × (verified a.filter.verified_facts ≡ verified b.filter.verified_facts)
      × (a.options.window ≡ b.options.window)
      × (a.options.discount_window ≡ b.options.discount_window)
      × (minimum a.options.min_discount ≡ minimum b.options.min_discount)

  abbrev values_of : Request → List (Option FieldValue)
  values_of a = field_values texts a.kind a.filter a.options a.day

  abbrev pub description : Request → List (String × FieldValue)
  description a = canonical texts a.kind a.filter a.options a.day

  values_of-SameRequest : (a b : Request) → values_of a ≡ values_of b → SameRequest a b
  unfolding field_values
  values_of-SameRequest a b e = (
    ap kind_in (ap (slot 0) e),
    text_back a.day b.day (ap (slot 1) e),
    (set_iff texts false a.filter.stores b.filter.stores).0 (set_back _ _ (ap (slot 2) e)),
    number_back a.filter.min_price b.filter.min_price (ap (slot 3) e),
    number_back a.filter.max_price b.filter.max_price (ap (slot 4) e),
    number_back a.filter.min_volume b.filter.min_volume (ap (slot 5) e),
    number_back a.filter.max_volume b.filter.max_volume (ap (slot 6) e),
    (set_iff texts true a.filter.countries b.filter.countries).0 (set_back _ _ (ap (slot 7) e)),
    text_back a.filter.name b.filter.name (ap (slot 8) e),
    (set_iff texts false a.filter.types b.filter.types).0 (set_back _ _ (ap (slot 9) e)),
    (set_iff texts false a.filter.flavors b.filter.flavors).0 (set_back _ _ (ap (slot 10) e)),
    (set_iff texts false a.filter.exclude_flavors b.filter.exclude_flavors).0
        (set_back _ _ (ap (slot 11) e)),
    (set_iff texts false a.filter.regions b.filter.regions).0 (set_back _ _ (ap (slot 12) e)),
    (set_iff texts false a.filter.exclude_regions b.filter.exclude_regions).0
        (set_back _ _ (ap (slot 13) e)),
    (flag_iff a.filter.verified_facts b.filter.verified_facts).0 (ap (slot 14) e),
    ap chosen_in (ap (slot 15) e),
    window_back a.options.discount_window b.options.discount_window (ap (slot 16) e),
    (constraining_iff a.options.min_discount b.options.min_discount).0
        (number_back _ _ (ap (slot 17) e)),
  )

  SameRequest-values_of : (a b : Request) → SameRequest a b → values_of a ≡ values_of b
  unfolding field_values
  SameRequest-values_of a b h = λ i.
      some (of_kind (h.0 i))
      ∷ value_of of_text (h.1 i)
      ∷ value_of of_set ((set_iff texts false a.filter.stores b.filter.stores).1 (h.2) i)
      ∷ value_of of_number (h.3 i)
      ∷ value_of of_number (h.4 i)
      ∷ value_of of_number (h.5 i)
      ∷ value_of of_number (h.6 i)
      ∷ value_of of_set ((set_iff texts true a.filter.countries b.filter.countries).1 (h.7) i)
      ∷ value_of of_text (h.8 i)
      ∷ value_of of_set ((set_iff texts false a.filter.types b.filter.types).1 (h.9) i)
      ∷ value_of of_set ((set_iff texts false a.filter.flavors b.filter.flavors).1 (h.10) i)
      ∷ value_of of_set
          ((set_iff texts false a.filter.exclude_flavors b.filter.exclude_flavors).1 (h.11) i)
      ∷ value_of of_set ((set_iff texts false a.filter.regions b.filter.regions).1 (h.12) i)
      ∷ value_of of_set
          ((set_iff texts false a.filter.exclude_regions b.filter.exclude_regions).1 (h.13) i)
      ∷ (flag_iff a.filter.verified_facts b.filter.verified_facts).1 (h.14) i
      ∷ some (of_window (h.15 i))
      ∷ value_of of_window (h.16 i)
      ∷ value_of of_number
          ((constraining_iff a.options.min_discount b.options.min_discount).1 (h.17) i)
      ∷ []

  description-values_of :
      (a b : Request) → description a ≡ description b → values_of a ≡ values_of b
  unfolding canonical field_values
  description-values_of a b e =
      defined_injective field_names (values_of a) (values_of b) field_names-Apart refl refl e

  -- Two requests have one description exactly when the query cannot tell them apart, whatever their
  -- sorting and their page.
  pub canonical_iff :
      (a b : Request)
      → (canonical texts a.kind a.filter a.options a.day
          ≡ canonical texts b.kind b.filter b.options b.day)
        ↔ SameRequest a b
  unfolding canonical
  canonical_iff a b = (
    λ e. values_of-SameRequest a b (description-values_of a b e),
    λ h i. defined field_names (SameRequest-values_of a b h i),
  )

  -- Requests that the query cannot tell apart are cached under one key, whatever the hash.
  suffix-SameRequest :
      (a b : Request) (hash : List (String × FieldValue) → String)
      → SameRequest a b
      → suffix texts hash a.kind a.filter a.options a.day
        ≡ suffix texts hash b.kind b.filter b.options b.day
  unfolding suffix
  suffix-SameRequest a b hash h i = labelled (h.0 i) (h.1 i) (hash ((canonical_iff a b).1 h i))
