-- ===== src/Report/Page/Choice.antt =====
-- Which positions a page holds.
use mathlib.Core.List.{append-nil, append_assoc}
use whisky_scrapper_node.Prelude.{
  ℕ, zero, suc, ◌+◌, ◌-◌, ◌*◌, ◌≤◌, ◌≡◌, refl, sym, ap, ◌∙◌, Bool, not, ◌&&◌, List, [], ◌∷◌, ◌++◌,
  if◌then◌else◌, leb, ltb, length, filter, take, drop, arith, Bool-cases, ltb→lt, take_nil,
  drop_nil, ltb-false→le, inl, inr,
}
use whisky_scrapper_node.Cache.Pages.{CachePagePick}
use whisky_scrapper_node.Report.Page.{
  ReportPageIndex, PreferenceFilterIds, PageOptions, is_hidden, select_from, select, order_key,
}

-- The items whose number lies within the page, counted from a number on.
within : ℕ → ℕ → ℕ → List ℕ → List ℕ
within offset end n [] = []
within offset end n (x ∷ xs) =
    if leb offset n && ltb n end
    then x ∷ within offset end (n + 1) xs
    else within offset end (n + 1) xs

within-past : (offset end n : ℕ) (xs : List ℕ) → end ≤ n → within offset end n xs ≡ []
unfolding within
within-past offset end n [] h = refl
within-past offset end n (x ∷ xs) h = ground (arith, within-past offset end (n + 1) xs)

within-take :
    (offset end n : ℕ) (xs : List ℕ) → offset ≤ n → within offset end n xs ≡ take (end - n) xs
unfolding within
within-take offset end n [] h = sym (take_nil (end - n))
within-take offset end n (x ∷ xs) h = elim (Bool-cases (ltb n end)) [
  | inl e ↦ ground (
    arith,
    within-take offset end (n + 1) xs (omega (arith, h)),
    ltb→lt n end e,
    ap (λ k. take k (x ∷ xs)) {x = end - n} {y = suc (end - (n + 1))}
        (omega (arith, ltb→lt n end e)),
  )
  | inr e ↦
      within-past offset end n (x ∷ xs) (ltb-false→le n end e)
      ∙ ap (λ k. take k (x ∷ xs)) {x = 0} {y = end - n} (omega (arith, ltb-false→le n end e))
]

within-slice :
    (offset end n : ℕ) (xs : List ℕ)
    → n ≤ offset
    → within offset end n xs ≡ take (end - offset) (drop (offset - n) xs)
unfolding within
within-slice offset end n [] h =
    sym (ap (take (end - offset)) (drop_nil (offset - n)) ∙ take_nil (end - offset))
within-slice offset end n (x ∷ xs) h = elim (Bool-cases (ltb n offset)) [
  | inl e ↦ ground (
    arith,
    within-slice offset end (n + 1) xs (omega (arith, ltb→lt n offset e)),
    ltb→lt n offset e,
    ap (λ k. drop k (x ∷ xs)) {x = offset - n} {y = suc (offset - (n + 1))}
        (omega (arith, ltb→lt n offset e)),
  )
  | inr e ↦
      within-take offset end n (x ∷ xs) (ltb-false→le n offset e)
      ∙ ap (λ k. take (end - n) (drop k (x ∷ xs))) {x = 0} {y = offset - n}
          (omega (arith, ltb-false→le n offset e))
      ∙ ap (λ k. take (end - k) (drop (offset - n) (x ∷ xs))) {x = n} {y = offset}
          (omega (arith, h, ltb-false→le n offset e))
]

select_from_lem :
    (hidden : ℕ → Bool) (offset end : ℕ) (xs : List ℕ) (picked : CachePagePick)
    → let visible = filter (λ x. not (hidden x)) xs in
      select_from hidden offset end xs picked ≡ record {
        positions = picked.positions ++ within offset end picked.total visible;
        total = picked.total + length visible;
      }
unfolding select_from within
select_from_lem hidden offset end [] picked = ground (arith, append-nil picked.positions)
select_from_lem hidden offset end (x ∷ xs) picked = elim (Bool-cases (hidden x)) [
  | inl e ↦ rw e (select_from_lem hidden offset end xs picked)
  | inr e ↦ elim (Bool-cases (leb offset picked.total && ltb picked.total end)) [
    | inl t ↦ rw e (
        rw t (
          select_from_lem hidden offset end xs
            (record { positions = picked.positions ++ x ∷ []; total = picked.total + 1 })
          ∙ ground (
            arith,
            append_assoc picked.positions (x ∷ [])
                (within offset end (picked.total + 1) (filter (λ y. not (hidden y)) xs)),
          )))
    | inr t ↦ rw e (
        rw t (
          select_from_lem hidden offset end xs
            (record { positions = picked.positions; total = picked.total + 1 })
          ∙ ground arith))
  ]
]

-- The positions of the chosen order that the caller may see, in that order.
abbrev pub visible : ReportPageIndex → PreferenceFilterIds → Bool → PageOptions → List ℕ
visible index preferences favorites_only options =
    filter (λ position. not (is_hidden index preferences favorites_only position))
      (index.orders (order_key options.sort_field options.order))

page-span : (p n : ℕ) → 1 ≤ p → p * n - (p - 1) * n ≡ n
page-span zero n h = omega (arith, h)
page-span (suc p) n h =
    ap (λ k. suc p * n - k * n) {x = suc p - 1} {y = p} (omega arith) ∙ grind arith

select-positions :
    (page per_page : ℕ) (xs : List ℕ)
    → 1 ≤ page
    → within ((page - 1) * per_page) (page * per_page) 0 xs
      ≡ take per_page (drop ((page - 1) * per_page) xs)
select-positions page per_page xs h =
    within-slice ((page - 1) * per_page) (page * per_page) 0 xs (omega arith)
    ∙ ap (λ k. take k (drop ((page - 1) * per_page - 0) xs)) (page-span page per_page h)
    ∙ ap (λ k. take per_page (drop k xs)) {x = (page - 1) * per_page - 0} (omega arith)

-- On a page that is at least 1, the pick is the page's slice of the positions that the caller may
-- see, in the chosen order, and the total is the number of all of them.
pub select_lem :
    (index : ReportPageIndex) (preferences : PreferenceFilterIds) (favorites_only : Bool)
    (options : PageOptions)
    → 1 ≤ options.page
    → select index preferences favorites_only options ≡ record {
      positions = take options.per_page (
          drop
            ((options.page - 1) * options.per_page)
            (visible index preferences favorites_only options));
      total = length (visible index preferences favorites_only options);
    }
unfolding select
select_lem index preferences favorites_only options h =
    select_from_lem (is_hidden index preferences favorites_only)
      ((options.page - 1) * options.per_page) (options.page * options.per_page)
      (index.orders (order_key options.sort_field options.order))
      (record { positions = []; total = 0 })
    ∙ ground (
      arith,
      select-positions options.page options.per_page
          (visible index preferences favorites_only options) h,
    )
