-- ===== src/Report/Key/Sets.antt =====
-- The normal form of a multi-value filter.
use Prim.Native.Nat.{Ordering}
use text.Mathlib.Text.{◌==◌ as str_eq}
use text.Mathlib.TextEquality.{eq_iff}
use whisky_scrapper_node.Prelude.{
  distinct, String, ◌≡◌, ◌≢◌, ◌↔◌, refl, sym, ap, ◌∙◌, Option, none, some, Bool, true, false, not,
  ◌||◌, List, [], ◌∷◌, map, filter, All, All-filter, All-map, flip, insert_sorted, sort, sort-All,
  insert_sorted-All, Ordering-cases, Bool-cases, inl, inr, arith,
}
use whisky_scrapper_node.Report.Page.{has}
use whisky_scrapper_node.Report.Key.{Texts, folded, set}

-- No text twice.
abbrev NoRepeat : List String → Type 0
NoRepeat [] = Unit
NoRepeat (x ∷ xs) = All (λ y. x ≢ y) xs × NoRepeat xs

filter-true : (p : String → Bool) (xs : List String) → All (λ y. p y ≡ true) (filter p xs)
filter-true p [] = tt
filter-true p (x ∷ xs) = elim (Bool-cases (p x)) [
  | inl e ↦ rw e (e, filter-true p xs)
  | inr e ↦ rw e (filter-true p xs)
]

filter-NoRepeat : (p : String → Bool) (xs : List String) → NoRepeat xs → NoRepeat (filter p xs)
filter-NoRepeat p [] h = tt
filter-NoRepeat p (x ∷ xs) h = elim (Bool-cases (p x)) [
  | inl e ↦ rw e (All-filter (λ y. x ≢ y) p xs h.0, filter-NoRepeat p xs h.1)
  | inr e ↦ rw e (filter-NoRepeat p xs h.1)
]

apart : (x y : String) → not (str_eq x y) ≡ true → x ≢ y
apart x y h e = ground (arith, eq_iff x y, h, e)

distinct-NoRepeat : (xs : List String) → NoRepeat (distinct xs)
unfolding distinct
distinct-NoRepeat [] = tt
distinct-NoRepeat (x ∷ xs) = (
  All-map (λ y. not (str_eq x y) ≡ true) (filter (λ y. not (str_eq x y)) (distinct xs)) (apart x)
      (filter-true (λ y. not (str_eq x y)) (distinct xs)),
  filter-NoRepeat (λ y. not (str_eq x y)) (distinct xs) (distinct-NoRepeat xs),
)

has-filter :
    (x z : String) (xs : List String)
    → str_eq z x || has (filter (λ y. not (str_eq x y)) xs) z ≡ str_eq z x || has xs z
has-filter x z [] = refl
has-filter x z (y ∷ ys) = elim (Bool-cases (str_eq x y)) [
  | inl e ↦
      let same : x ≡ y = (eq_iff x y).0 e in
      rw e (has-filter x z ys ∙ ground (arith, ap (str_eq z) same))
  | inr e ↦ rw e (ground (arith, has-filter x z ys))
]

has-distinct : (z : String) (xs : List String) → has (distinct xs) z ≡ has xs z
unfolding distinct
has-distinct z [] = refl
has-distinct z (x ∷ xs) =
    has-filter x z (distinct xs) ∙ ap (λ b. str_eq z x || b) (has-distinct z xs)

module _ (texts : Texts) where
  open texts use {compare_units}

  has-insert_sorted :
      (z x : String) (xs : List String)
      → has (insert_sorted compare_units x xs) z ≡ str_eq z x || has xs z
  unfolding insert_sorted
  has-insert_sorted z x [] = refl
  has-insert_sorted z x (y ∷ ys) = elim (Ordering-cases (compare_units x y)) [
    | inl e ↦ rw (e, insert_sorted) (ground (arith, has-insert_sorted z x ys))
    | inr (inl e) ↦ rw (e, insert_sorted) refl
    | inr (inr e) ↦ rw (e, insert_sorted) refl
  ]

  has-sort : (z : String) (xs : List String) → has (sort compare_units xs) z ≡ has xs z
  unfolding sort
  has-sort z [] = refl
  has-sort z (x ∷ xs) =
      has-insert_sorted z x (sort compare_units xs) ∙ ap (λ b. str_eq z x || b) (has-sort z xs)

  -- Each text before all that follow it.
  abbrev Rises : List String → Type 0
  Rises [] = Unit
  Rises (x ∷ xs) = All (λ y. compare_units x y ≡ Ordering.lt) xs × Rises xs

  insert_sorted-Rises :
      (x : String) (xs : List String)
      → All (λ y. x ≢ y) xs
      → Rises xs
      → Rises (insert_sorted compare_units x xs)
  unfolding insert_sorted
  insert_sorted-Rises x [] fresh h = (tt, tt)
  insert_sorted-Rises x (y ∷ ys) fresh h = elim (Ordering-cases (compare_units x y)) [
    | inl e ↦
        rw (e, insert_sorted)
          (
            insert_sorted-All (λ z. compare_units y z ≡ Ordering.lt) compare_units x ys
                (texts.compare_units-flip x y ∙ ap flip e) h.0,
            insert_sorted-Rises x ys fresh.1 h.1,
          )
    | inr (inl e) ↦
        rw (e, insert_sorted)
          (
            (
              e,
              All-map (λ z. compare_units y z ≡ Ordering.lt) ys
                  (λ z k. texts.compare_units_trans x y z e k) h.0,
            ),
            h,
          )
    | inr (inr e) ↦ absurd (fresh.0 (texts.eq-compare_units x y e))
  ]

  sort-Rises : (xs : List String) → NoRepeat xs → Rises (sort compare_units xs)
  unfolding sort
  sort-Rises [] h = tt
  sort-Rises (x ∷ xs) h =
      insert_sorted-Rises x (sort compare_units xs) (sort-All (λ y. x ≢ y) compare_units xs h.0)
        (sort-Rises xs h.1)

  lt-ne : (x y : String) → compare_units x y ≡ Ordering.lt → str_eq x y ≡ false
  lt-ne x y h = elim (Bool-cases (str_eq x y)) [
    | inr e ↦ e
    | inl e ↦
        let k : compare_units x x ≡ Ordering.lt = ap (compare_units x) ((eq_iff x y).0 e) ∙ h in
        absurd (cc (sym k ∙ texts.compare_units-flip x x ∙ ap flip k))
  ]

  member-lt :
      (x z : String) (ys : List String)
      → All (λ y. compare_units x y ≡ Ordering.lt) ys
      → has ys z ≡ true
      → compare_units x z ≡ Ordering.lt
  member-lt x z [] h k = absurd (cc k)
  member-lt x z (y ∷ ys) h k = elim (Bool-cases (str_eq z y)) [
    | inl e ↦ ap (compare_units x) ((eq_iff z y).0 e) ∙ h.0
    | inr e ↦ member-lt x z ys h.1 (rw e at k)
  ]

  self : (x : String) → str_eq x x ≡ true
  self x = (eq_iff x x).1 refl

  -- The first of two rising lists with one set of members.
  heads :
      (x y : String) (xs ys : List String)
      → Rises (x ∷ xs)
      → Rises (y ∷ ys)
      → ((z : String) → has (x ∷ xs) z ≡ has (y ∷ ys) z)
      → x ≡ y
  heads x y xs ys h k same = elim (Bool-cases (str_eq x y)) [
    | inl e ↦ (eq_iff x y).0 e
    | inr e ↦
        let before : compare_units y x ≡ Ordering.lt =
          member-lt y x ys k.0 (ground (arith, same x, self x, e)) in
        let after : compare_units x y ≡ Ordering.lt =
          member-lt x y xs h.0 (ground (arith, same y, self y, lt-ne y x before)) in
        absurd (cc (before, texts.compare_units-flip x y ∙ ap flip after))
  ]

  absent :
      (x : String) (xs : List String)
      → All (λ y. compare_units x y ≡ Ordering.lt) xs
      → has xs x ≡ false
  absent x [] h = refl
  absent x (y ∷ ys) h = rw (lt-ne x y h.0) (absent x ys h.1)

  -- Texts that rise are what their members are.
  Rises-members :
      (xs ys : List String) → Rises xs → Rises ys → ((z : String) → has xs z ≡ has ys z) → xs ≡ ys
  Rises-members [] [] h k same = refl
  Rises-members [] (y ∷ ys) h k same = absurd (ground (arith, same y, self y))
  Rises-members (x ∷ xs) [] h k same = absurd (ground (arith, same x, self x))
  Rises-members (x ∷ xs) (y ∷ ys) h k same =
      let first = heads x y xs ys h k same in
      let rest = Rises-members xs ys h.1 k.1 (λ z. elim (Bool-cases (str_eq z x)) [
        | inl e ↦
            let at_x : z ≡ x = (eq_iff z x).0 e in
            ap (has xs) at_x
            ∙ absent x xs h.0
            ∙ sym (absent y ys k.0)
            ∙ ap (has ys) (sym (at_x ∙ first))
        | inr e ↦ ground (arith, same z, e, ap (str_eq z) first)
      ]) in
      λ i. first i ∷ rest i

-- The values of a filter; a filter that is absent has none, as the query has it.
abbrev pub values : Option (List String) → List String
values none = []
values (some xs) = xs

module _ (texts : Texts) where
  open texts use {compare_units}

  -- Two filters that accept the same values, if need be in lower case.
  abbrev pub SameSet : Bool → Option (List String) → Option (List String) → Type 0
  SameSet lower a b =
      (z : String) → has (folded texts lower (values a)) z ≡ has (folded texts lower (values b)) z

  has-set :
      (lower : Bool) (a : Option (List String)) (z : String)
      → has (values (set texts a lower)) z ≡ has (folded texts lower (values a)) z
  unfolding set
  has-set true none z = refl
  has-set false none z = refl
  has-set true (some []) z = refl
  has-set false (some []) z = refl
  has-set lower (some (x ∷ xs)) z =
      has-sort texts z (distinct (folded texts lower (x ∷ xs)))
      ∙ has-distinct z (folded texts lower (x ∷ xs))

  -- A set that has a member, and none else.
  abbrev filled : List String → Option (List String)
  filled [] = none
  filled (x ∷ xs) = some (x ∷ xs)

  filled-has : (xs : List String) (z : String) → has xs z ≡ true → filled xs ≡ some xs
  filled-has [] z h = absurd (cc h)
  filled-has (x ∷ xs) z h = refl

  -- The normal form of what a filter accepts.
  abbrev normal : List String → List String
  normal xs = sort compare_units (distinct xs)

  normal-first : (x : String) (xs : List String) → filled (normal (x ∷ xs)) ≡ some (normal (x ∷ xs))
  normal-first x xs = filled-has (normal (x ∷ xs)) x (
      has-sort texts x (distinct (x ∷ xs))
      ∙ has-distinct x (x ∷ xs)
      ∙ ap (λ b. b || has xs x) (self texts x))

  set-filled :
      (lower : Bool) (a : Option (List String))
      → set texts a lower ≡ filled (normal (folded texts lower (values a)))
  unfolding set distinct sort
  set-filled true none = refl
  set-filled false none = refl
  set-filled true (some []) = refl
  set-filled false (some []) = refl
  set-filled true (some (x ∷ xs)) =
      sym (normal-first (texts.to_lower_case x) (map texts.to_lower_case xs))
  set-filled false (some (x ∷ xs)) = sym (normal-first x xs)

  normal-same : (xs ys : List String) → ((z : String) → has xs z ≡ has ys z) → normal xs ≡ normal ys
  normal-same xs ys same =
      Rises-members texts (normal xs) (normal ys)
        (sort-Rises texts (distinct xs) (distinct-NoRepeat xs))
        (sort-Rises texts (distinct ys) (distinct-NoRepeat ys))
        (λ z.
          has-sort texts z (distinct xs)
          ∙ has-distinct z xs
          ∙ same z
          ∙ sym (has-distinct z ys)
          ∙ sym (has-sort texts z (distinct ys)))

  pub set_iff :
      (lower : Bool) (a b : Option (List String))
      → (set texts a lower ≡ set texts b lower) ↔ SameSet lower a b
  set_iff lower a b = (
    λ e z. sym (has-set lower a z) ∙ ap (λ o. has (values o) z) e ∙ has-set lower b z,
    λ same.
        set-filled lower a
        ∙ ap filled
            (normal-same (folded texts lower (values a)) (folded texts lower (values b)) same)
        ∙ sym (set-filled lower b),
  )
