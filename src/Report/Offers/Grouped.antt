-- ===== src/Report/Offers/Grouped.antt =====
-- Which offers a group has.
use text.Mathlib.Text.{◌==◌ as str_eq}
use whisky_scrapper_node.Prelude.{
  each_group_lem, String, ◌≡◌, refl, ap, Bool, List, [], ◌∷◌, if◌then◌else◌, All, filter, sort,
  sort-All, of_key, Bool-cases, inl, inr,
}
use whisky_scrapper_node.Report.Offers.{
  ReportRow, ReportGroup, Runtime, rows_by_price, grouped, group_of, group_offers,
}

abbrev pub product_of : ReportRow → String
product_of r = r.row.product_id

-- A group of a product.
abbrev pub is_of : String → ReportGroup → Bool
is_of product g = str_eq (product_of g.primary) product

module _ (runtime : Runtime) where
  filter-grouped :
      (k product : String) (rows : List ReportRow)
      → All (λ r. product_of r ≡ k) rows
      → filter (is_of product) (grouped runtime rows)
        ≡ (if str_eq k product then grouped runtime rows else [])
  filter-grouped k product [] h = elim (Bool-cases (str_eq k product)) [
    | inl e ↦ rw e refl
    | inr e ↦ rw e refl
  ]
  filter-grouped k product (first ∷ rest) h =
      ap (λ b. if b then grouped runtime (first ∷ rest) else []) (ap (λ x. str_eq x product) h.0)

  filter-group_of :
      (k product : String) (rows : List ReportRow)
      → All (λ r. product_of r ≡ k) rows
      → filter (is_of product) (group_of runtime rows)
        ≡ (if str_eq k product then group_of runtime rows else [])
  unfolding group_of
  filter-group_of k product rows h =
      filter-grouped k product (sort (rows_by_price runtime) rows)
        (sort-All (λ r. product_of r ≡ k) (rows_by_price runtime) rows h)

  -- The groups of a product are one, of the rows of that product by price, or none if there is no
  -- such row.
  pub group_offers_lem :
      (rows : List ReportRow) (product : String)
      → filter (is_of product) (group_offers runtime rows)
        ≡ group_of runtime (filter (of_key product_of product) rows)
  unfolding group_offers group_of sort
  group_offers_lem rows product =
      each_group_lem (group_of runtime) product_of is_of filter-group_of refl rows product
