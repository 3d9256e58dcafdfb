-- ===== src/Report/Query/Groups.antt =====
-- Requests that share a key have the same groups.
use whisky_scrapper_node.Prelude.{
  ℕ, ◌≡◌, refl, sym, ◌∙◌, Option, none, some, List, [], map, filter, length, ◌==◌, if◌then◌else◌,
}
use whisky_scrapper_node.Report.Request.{
  ReportKind, best, catalog, drops, low, new, ReportOptions, ReportFilter,
}
use whisky_scrapper_node.Report.Offers.{ReportCurrentRow, Runtime, apply_min_discount}
use whisky_scrapper_node.Report.Build.{
  Prices, selection_filter, within_price_bounds, drops_groups, low_groups, newest_groups,
  best_group, best_groups, build_kind, build_groups,
}
use whisky_scrapper_node.Report.Key.{Texts, canonical}
use whisky_scrapper_node.Report.Key.Same.{minimum}
use whisky_scrapper_node.Report.Key.Shared.{Request, SameRequest, canonical_iff}
use whisky_scrapper_node.Report.Query.{CatalogueRow, Matching, selects, find_current_rows}
use whisky_scrapper_node.Report.Query.Shared.{selects-same}

-- What treats no minimum and 0 alike goes by the minimum.
minimum-same :
    {A : Type 0} (f : Option ℕ → A)
    → f none ≡ f (some 0)
    → (m n : Option ℕ) → minimum m ≡ minimum n
    → f m ≡ f n
minimum-same f zero_ none none same = refl
minimum-same f zero_ none (some n) same = zero_ ∙ λ i. f (some (same i))
minimum-same f zero_ (some m) none same = (λ i. f (some (same i))) ∙ sym zero_
minimum-same f zero_ (some m) (some n) same = λ i. f (some (same i))

module _ (runtime : Runtime) (prices : Prices) (now : ℕ) where
  -- A minimum of 0 is none.
  build_kind-zero :
      (kind : ReportKind) (filter_ : ReportFilter) (options : ReportOptions)
      (current : List ReportCurrentRow)
      → build_kind runtime prices now kind filter_ (record options { min_discount = none }) current
        ≡ build_kind runtime prices now kind filter_
            (record options { min_discount = some 0 })
            current
  unfolding build_kind drops_groups low_groups newest_groups best_groups apply_min_discount
  build_kind-zero best filter_ options current = refl
  build_kind-zero catalog filter_ options current = refl
  build_kind-zero drops filter_ options current = refl
  build_kind-zero low filter_ options current = refl
  build_kind-zero new filter_ options current = refl

  module _ (texts : Texts) where
    -- One kind of report reads of the filter and the options what a key has of them.
    build_kind-same :
        (kind : ReportKind) (a b : Request) (m : Option ℕ) (current : List ReportCurrentRow)
        → SameRequest texts a b
        → build_kind runtime prices now kind a.filter
            (record a.options { min_discount = m })
            current
          ≡ build_kind runtime prices now kind b.filter
              (record b.options { min_discount = m })
              current
    unfolding build_kind drops_groups low_groups newest_groups best_groups best_group
        within_price_bounds
    build_kind-same best a b m current h = λ i.
        best_groups runtime current (record a.filter { min_price = h.3 i; max_price = h.4 i })
          (record a.options { min_discount = m })
    build_kind-same catalog a b m current h = refl
    build_kind-same drops a b m current h = λ i.
        drops_groups runtime prices now current
          (record a.options { min_discount = m; window = h.15 i; discount_window = h.16 i })
    build_kind-same low a b m current h = λ i.
        low_groups runtime prices current (record a.options { min_discount = m; window = h.15 i })
    build_kind-same new a b m current h = λ i. newest_groups runtime current now (h.15 i)

    build_kind-SameRequest :
        (kind : ReportKind) (a b : Request) (current : List ReportCurrentRow)
        → SameRequest texts a b
        → build_kind runtime prices now kind a.filter a.options current
          ≡ build_kind runtime prices now kind b.filter b.options current
    build_kind-SameRequest kind a b current h =
        build_kind-same kind a b a.options.min_discount current h
        ∙ minimum-same
            (λ m.
              build_kind runtime prices now kind b.filter (record b.options { min_discount = m })
                current)
            (build_kind-zero kind b.filter b.options current) a.options.min_discount
            b.options.min_discount h.17

    module _ (matching : Matching) where
      find_current_rows-same :
          (table : List (CatalogueRow × ReportCurrentRow)) (f g : ReportFilter)
          → ((row : CatalogueRow)
              → selects texts.to_lower_case matching f row
                ≡ selects texts.to_lower_case matching g row)
          → find_current_rows texts.to_lower_case matching table f
            ≡ find_current_rows texts.to_lower_case matching table g
      unfolding find_current_rows
      find_current_rows-same table f g same = λ i.
          map (λ (r : CatalogueRow × ReportCurrentRow). r.1)
            (filter (λ (r : CatalogueRow × ReportCurrentRow). same r.0 i) table)

      selected-same :
          (kind : ReportKind) (a b : Request) (row : CatalogueRow)
          → SameRequest texts a b
          → selects texts.to_lower_case matching (selection_filter kind a.filter) row
            ≡ selects texts.to_lower_case matching (selection_filter kind b.filter) row
      unfolding selection_filter
      selected-same best a b row h =
          selects-same texts matching a b none none none none row h refl refl
      selected-same catalog a b row h = selects-same texts matching a b _ _ _ _ row h h.3 h.4
      selected-same drops a b row h = selects-same texts matching a b _ _ _ _ row h h.3 h.4
      selected-same low a b row h = selects-same texts matching a b _ _ _ _ row h h.3 h.4
      selected-same new a b row h = selects-same texts matching a b _ _ _ _ row h h.3 h.4

      -- Two requests with one description have the same groups, whatever the catalogue holds and
      -- whatever the time: a set that is cached under the key of the one is right for the other.
      pub canonical-build_groups :
          (latest : Option ℕ) (table : List (CatalogueRow × ReportCurrentRow)) (a b : Request)
          → canonical texts a.kind a.filter a.options a.day
            ≡ canonical texts b.kind b.filter b.options b.day
          → build_groups runtime prices now latest a.kind a.filter a.options
              (find_current_rows texts.to_lower_case matching table)
            ≡ build_groups runtime prices now latest b.kind b.filter b.options
                (find_current_rows texts.to_lower_case matching table)
      unfolding build_groups
      canonical-build_groups none table a b e = refl
      canonical-build_groups (some day) table a b e =
          let h = (canonical_iff texts a b).0 e in
          let current = λ (f : ReportFilter).
            find_current_rows texts.to_lower_case matching table (selection_filter b.kind f) in
          let same =
            find_current_rows-same table (selection_filter b.kind a.filter)
              (selection_filter b.kind b.filter) (λ row. selected-same b.kind a b row h) in
          (λ i.
            build_groups runtime prices now (some day) (h.0 i) a.filter a.options
              (find_current_rows texts.to_lower_case matching table))
          ∙ (λ i.
              if length (same i) == 0
              then []
              else build_kind runtime prices now b.kind a.filter a.options (same i))
          ∙ (λ i.
              if length (current b.filter) == 0
              then []
              else build_kind-SameRequest b.kind a b (current b.filter) h i)
