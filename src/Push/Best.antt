-- ===== src/Push/Best.antt =====
-- The lines of a digest.
use Prim.Native.Nat.{compare}
use text.Mathlib.Text.{◌==◌ as str_eq}
use mathlib.Core.List.{Perm}
use mathlib.Core.Path.{subst}
use whisky_scrapper_node.Prelude.{
  String, ◌≤◌, ◌≡◌, refl, ap, Bool, List, [], ◌∷◌, if◌then◌else◌, All, filter, of_key,
  each_group_lem, sort-perm, sort-Ascends, Ascends, flip, or_then-flip, compare-flip, ltb, ltb→lt,
  ltb-false→le, Bool-cases, inl, inr, arith,
}
use whisky_scrapper_node.Push.{
  PushDropRow, PushDigestItem, Runtime, best_of, digest_of, items_of, by_discount, best_per_product,
}

abbrev pub product_of : PushDropRow → String
product_of row = row.product_id

-- A line of a product.
abbrev pub is_of : String → PushDigestItem → Bool
is_of product item = str_eq item.product_id product

-- What holds of every offer holds of the best.
best_of-All :
    (P : PushDropRow → Type 0) (top : PushDropRow) (offers : List PushDropRow)
    → P top
    → All P offers
    → P (best_of top offers)
unfolding best_of
best_of-All P top [] p h = p
best_of-All P top (offer ∷ offers) p h =
    elim (Bool-cases (ltb top.discount_pct offer.discount_pct)) [
      | inl e ↦ rw e (best_of-All P offer offers h.0 h.1)
      | inr e ↦ rw e (best_of-All P top offers p h.1)
    ]

-- No offer has a larger discount than a row.
abbrev Largest : PushDropRow → List PushDropRow → PushDropRow → Type 0
Largest top offers best =
    (top.discount_pct ≤ best.discount_pct)
    × All (λ offer. offer.discount_pct ≤ best.discount_pct) offers

best_of-Largest :
    (top : PushDropRow) (offers : List PushDropRow) → Largest top offers (best_of top offers)
unfolding best_of
best_of-Largest top [] = (omega arith, tt)
best_of-Largest top (offer ∷ offers) = elim (Bool-cases (ltb top.discount_pct offer.discount_pct)) [
  | inl e ↦
      let (here, rest) = best_of-Largest offer offers in
      let step : best_of offer offers ≡ best_of top (offer ∷ offers) = rw e refl in
      subst (Largest top (offer ∷ offers)) step (omega (arith, here, ltb→lt _ _ e), (here, rest))
  | inr e ↦
      let (here, rest) = best_of-Largest top offers in
      let step : best_of top offers ≡ best_of top (offer ∷ offers) = rw e refl in
      subst (Largest top (offer ∷ offers)) step
        (here, (omega (arith, here, ltb-false→le _ _ e), rest))
]

-- The line of some offers states their largest discount.
abbrev pub States : List PushDropRow → PushDigestItem → Type 0
States rows item = All (λ row. row.discount_pct ≤ item.discount_pct) rows

module _ (runtime : Runtime) where
  digest_of-Keyed :
      (k product : String) (rows : List PushDropRow)
      → All (λ row. product_of row ≡ k) rows
      → filter (is_of product) (digest_of runtime rows)
        ≡ (if str_eq k product then digest_of runtime rows else [])
  unfolding digest_of
  digest_of-Keyed k product [] h = elim (Bool-cases (str_eq k product)) [
    | inl e ↦ rw e refl
    | inr e ↦ rw e refl
  ]
  digest_of-Keyed k product (first ∷ rest) h =
      ap (λ b. if b then digest_of runtime (first ∷ rest) else [])
        (ap (λ x. str_eq x product) (best_of-All (λ row. product_of row ≡ k) first rest h.0 h.1))

  digest_of-States : (rows : List PushDropRow) → All (States rows) (digest_of runtime rows)
  unfolding digest_of
  digest_of-States [] = tt
  digest_of-States (first ∷ rest) = (best_of-Largest first rest, tt)

  by_discount-flip :
      (a b : PushDigestItem) → by_discount runtime b a ≡ flip (by_discount runtime a b)
  by_discount-flip a b =
      or_then-flip (compare b.discount_pct a.discount_pct) (runtime.locale_compare a.name b.name)
        (compare-flip b.discount_pct a.discount_pct) (runtime.locale_compare-flip a.name b.name)

  -- A digest has the lines of the products, each once, in the order of their discounts and names.
  -- For every product its lines are one, or none where it has no row, made of the rows of the
  -- product alone; and a line states the largest discount of those rows.
  pub best_per_product_lem :
      (rows : List PushDropRow) (product : String)
      → let own = filter (of_key product_of product) rows in
        Perm (best_per_product runtime rows) (items_of runtime rows)
        × Ascends (by_discount runtime) (best_per_product runtime rows)
        × (filter (is_of product) (items_of runtime rows) ≡ digest_of runtime own)
        × All (States own) (digest_of runtime own)
  unfolding best_per_product items_of digest_of
  best_per_product_lem rows product = (
    sort-perm (by_discount runtime) (items_of runtime rows),
    sort-Ascends (by_discount runtime) by_discount-flip (items_of runtime rows),
    each_group_lem (digest_of runtime) product_of is_of digest_of-Keyed refl rows product,
    digest_of-States (filter (of_key product_of product) rows),
  )
