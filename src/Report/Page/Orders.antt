-- ===== src/Report/Page/Orders.antt =====
-- What the orders of an index are.
use Prim.Native.Nat.{Ordering}
use mathlib.Core.List.{Perm}
use whisky_scrapper_node.Prelude.{
  ℕ, zero, suc, ◌+◌, ◌<◌, ◌≤◌, All, ◌≡◌, ◌≢◌, refl, ap, ◌∙◌, Option, none, some, List, [], ◌∷◌,
  length, get_elem?, flip, or_then-flip, compare-flip, sort, sort-perm, Ascends, Ascends-tail, map,
  sort-Ascends, sort-All, arith, String, Option-cases, inl, inr,
}
use whisky_scrapper_node.Report.Page.{
  ReportSortField, SortOrder, asc, desc, SortValue, number, words, PageGroup, Collation, by,
  positions_from, directed, compare_values, compare_by, compare_groups, compare_at, order,
  orders_of, build_index,
}

directed-flip : (o : SortOrder) (c : Ordering) → directed o (flip c) ≡ flip (directed o c)
directed-flip asc c = refl
directed-flip desc c = refl

module _ (collation : Collation) where
  compare_values-flip :
      (a b : SortValue) → compare_values collation b a ≡ flip (compare_values collation a b)
  unfolding compare_values
  compare_values-flip (number a) (number b) = compare-flip a b
  compare_values-flip (number a) (words b) = collation.locale_compare-flip _ _
  compare_values-flip (words a) (number b) = collation.locale_compare-flip _ _
  compare_values-flip (words a) (words b) = collation.locale_compare-flip _ _

  compare_by-flip :
      (o : SortOrder) (a b : Option SortValue) (left right : String)
      → compare_by collation o b a right left ≡ flip (compare_by collation o a b left right)
  unfolding compare_by
  compare_by-flip o none none left right = collation.locale_compare-flip left right
  compare_by-flip o none (some b) left right = refl
  compare_by-flip o (some a) none left right = refl
  compare_by-flip o (some a) (some b) left right =
      or_then-flip (directed o (compare_values collation a b)) (collation.locale_compare left right)
        (ap (directed o) (compare_values-flip a b) ∙ directed-flip o (compare_values collation a b))
        (collation.locale_compare-flip left right)

  compare_groups-flip :
      (field : ReportSortField) (o : SortOrder) (a b : Option PageGroup)
      → compare_groups collation field o b a ≡ flip (compare_groups collation field o a b)
  unfolding compare_groups
  compare_groups-flip field o none none = refl
  compare_groups-flip field o none (some b) = refl
  compare_groups-flip field o (some a) none = refl
  compare_groups-flip field o (some a) (some b) =
      compare_by-flip o (a.value field) (b.value field) a.id b.id

  compare_at-flip :
      (groups : List PageGroup) (field : ReportSortField) (o : SortOrder) (a b : ℕ)
      → compare_at collation groups field o b a ≡ flip (compare_at collation groups field o a b)
  unfolding compare_at
  compare_at-flip groups field o a b =
      compare_groups-flip field o (get_elem? groups a) (get_elem? groups b)

-- The value of a field at a position.
abbrev pub value_at : List PageGroup → ReportSortField → ℕ → Option SortValue
value_at groups field position = elim (get_elem? groups position) [
  | none ↦ none
  | some group ↦ group.value field
]

-- After a null there are only nulls.
abbrev pub NullsLast : List (Option SortValue) → Type 0
NullsLast [] = Unit
NullsLast (some x ∷ xs) = NullsLast xs
NullsLast (none ∷ xs) = All (λ x. x ≡ none) xs

-- A position of a group.
abbrev IsPosition : List PageGroup → ℕ → Type 0
IsPosition groups position = position < length groups

positions_from-IsPosition :
    (n k : ℕ) (groups : List PageGroup)
    → n + length groups ≤ k
    → All (λ p. p < k) (positions_from n groups)
positions_from-IsPosition n k [] h = tt
positions_from-IsPosition n k (g ∷ gs) h =
    (omega (arith, h), positions_from-IsPosition (n + 1) k gs (omega (arith, h)))

IsPosition-group :
    (groups : List PageGroup) (p : ℕ)
    → p < length groups
    → (g : PageGroup) × (get_elem? groups p ≡ some g)
IsPosition-group [] p h = absurd (omega (arith, h))
IsPosition-group (g ∷ gs) zero h = (g, refl)
IsPosition-group (g ∷ gs) (suc p) h = IsPosition-group gs p (omega (arith, h))

none-compare_groups :
    (collation : Collation) (field : ReportSortField) (o : SortOrder) (a b : PageGroup)
    → a.value field ≡ none
    → compare_groups collation field o (some a) (some b) ≢ Ordering.gt
    → b.value field ≡ none
unfolding compare_groups compare_by
none-compare_groups collation field o a b e h = elim (Option-cases (b.value field)) [
  | inl k ↦ k
  | inr (x, k) ↦ absurd (h (rw (e, compare_by) (rw (k, compare_by) refl)))
]

none-compare_at :
    (collation : Collation) (groups : List PageGroup) (field : ReportSortField) (o : SortOrder)
    (p q : ℕ)
    → value_at groups field p ≡ none
    → p < length groups
    → q < length groups
    → compare_at collation groups field o p q ≢ Ordering.gt
    → value_at groups field q ≡ none
unfolding compare_at
none-compare_at collation groups field o p q e hp hq h =
    let (a, ea) = IsPosition-group groups p hp in
    let (b, eb) = IsPosition-group groups q hq in
    rw (eb, value_at)
      (none-compare_groups collation field o a b (rw (ea, value_at) at e) (λ k. h (
        ap (λ x. compare_groups collation field o x (get_elem? groups q)) ea
        ∙ ap (compare_groups collation field o (some a)) eb
        ∙ k)))

Ascends-none :
    (collation : Collation) (groups : List PageGroup) (field : ReportSortField) (o : SortOrder)
    (p : ℕ) (ps : List ℕ)
    → value_at groups field p ≡ none
    → All (IsPosition groups) (p ∷ ps)
    → Ascends (compare_at collation groups field o) (p ∷ ps)
    → All (λ x. x ≡ none) (map (value_at groups field) ps)
unfolding compare_at
Ascends-none collation groups field o p [] e all h = tt
Ascends-none collation groups field o p (q ∷ qs) e all h =
    let next : value_at groups field q ≡ none =
      none-compare_at collation groups field o p q e all.0 all.1.0 h.0 in
    (next, Ascends-none collation groups field o q qs next all.1 h.1)

Ascends-NullsLast :
    (collation : Collation) (groups : List PageGroup) (field : ReportSortField) (o : SortOrder)
    (ps : List ℕ)
    → All (IsPosition groups) ps
    → Ascends (compare_at collation groups field o) ps
    → NullsLast (map (value_at groups field) ps)
Ascends-NullsLast collation groups field o [] all h = tt
Ascends-NullsLast collation groups field o (p ∷ ps) all h =
    elim (Option-cases (value_at groups field p)) [
      | inl e ↦ rw e (Ascends-none collation groups field o p ps e all h)
      | inr (x, e) ↦
          rw e (Ascends-NullsLast collation groups field o ps all.1 (Ascends-tail _ p ps h))
    ]

-- Every order of a built index has the positions of the groups, each once; neighbours in it are in
-- the order of the field, of its direction and of the tie-break; and a group without a value for
-- the field comes after all that have one, in both directions.
pub build_index-Ascends :
    (collation : Collation) (groups : List PageGroup) (field : ReportSortField) (o : SortOrder)
    → let order = (build_index collation groups).orders (by field o) in
      Perm order (positions_from 0 groups)
      × Ascends (compare_at collation groups field o) order
      × NullsLast (map (value_at groups field) order)
unfolding build_index orders_of order
build_index-Ascends collation groups field o =
    let sorted : Ascends (compare_at collation groups field o)
        (sort (compare_at collation groups field o) (positions_from 0 groups)) =
      sort-Ascends (compare_at collation groups field o) (compare_at-flip collation groups field o)
        (positions_from 0 groups) in
    (
      sort-perm (compare_at collation groups field o) (positions_from 0 groups),
      sorted,
      Ascends-NullsLast collation groups field o _
          (sort-All (IsPosition groups) (compare_at collation groups field o)
            (positions_from 0 groups)
            (positions_from-IsPosition 0 (length groups) groups (omega arith)))
          sorted,
    )
