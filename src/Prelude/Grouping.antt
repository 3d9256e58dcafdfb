-- ===== src/Prelude/Grouping.antt =====
-- Items grouped by a key, as a `Map` from keys to lists that each item is pushed to. A `Map` is the
-- list of its entries in the order of insertion.
use text.Mathlib.Text.{◌==◌ as str_eq}
use text.Mathlib.TextEquality.{eq_iff}
use Prim.Native.Nat.{◌<◌}
use Prim.Native.String.{String}
use mathlib.Core.Path.{◌≡◌, refl, sym, ap, ◌∙◌}
use mathlib.Core.Logic.{◌≢◌, inl, inr}
use mathlib.Core.Bool.{Bool, true, false, not, ◌||◌}
use mathlib.Core.List.{
  List, [], ◌∷◌, ◌++◌, map, cons≢nil, head-eq_of_cons-eq, tail-eq_of_cons-eq, append-nil,
  append_assoc,
}
use native.Mathlib.Omega.{arith}
use whisky_scrapper_node.Prelude.Tests.{if◌then◌else◌, Bool-cases}
use whisky_scrapper_node.Prelude.Lists.{
  length, filter, any, flatten, All, filter-append, length-append, All-append,
}

or_false : (b : Bool) → b || false ≡ b
or_false b = ground arith

or_same : (b : Bool) → b || b ≡ b
or_same b = ground arith

-- The first of equal texts.
unfoldable pub distinct : List String → List String
distinct [] = []
distinct (x ∷ xs) = x ∷ filter (λ y. not (str_eq x y)) (distinct xs)

module _ {ℓ} {A : Type ℓ} where
  -- `groups.get(key) ?? []`, then `push` and `set`.
  unfoldable pub add_to_group : String → A → List (String × List A) → List (String × List A)
  add_to_group key s [] = (key, s ∷ []) ∷ []
  add_to_group key s ((k, group) ∷ groups) =
      let rest = add_to_group key s groups in
      if str_eq k key then (k, group ++ s ∷ []) ∷ groups else (k, group) ∷ rest

  -- No list, or one.
  abbrev pub single : List A → List (List A)
  single [] = []
  single (s ∷ xs) = (s ∷ xs) ∷ []

  -- The groups under a key.
  abbrev pub at_key : String → List (String × List A) → List (List A)
  at_key key [] = []
  at_key key ((k, group) ∷ groups) =
      if str_eq k key then group ∷ at_key key groups else at_key key groups

  pub single-snoc : (xs : List A) (s : A) → single (xs ++ s ∷ []) ≡ (xs ++ s ∷ []) ∷ []
  single-snoc [] s = refl
  single-snoc (x ∷ xs) s = refl

  single-cons :
      (group : List A) (rest : List (List A)) (xs : List A)
      → group ∷ rest ≡ single xs
      → (group ≡ xs) × (rest ≡ [])
  single-cons group rest [] h = absurd (cons≢nil h)
  single-cons group rest (x ∷ xs) h = (head-eq_of_cons-eq h, tail-eq_of_cons-eq h)

  at_key-add_self :
      (key : String) (s : A) (groups : List (String × List A)) (xs : List A)
      → at_key key groups ≡ single xs
      → at_key key (add_to_group key s groups) ≡ single (xs ++ s ∷ [])
  unfolding add_to_group
  at_key-add_self key s [] [] h = ground (arith, eq_iff key key)
  at_key-add_self key s [] (x ∷ xs) h = cc
  at_key-add_self key s ((k, group) ∷ groups) xs h = elim (Bool-cases (str_eq k key)) [
    | inl e ↦
        let (here, none_left) = single-cons group (at_key key groups) xs (rw e at h) in
        rw (e, none_left, here, single-snoc xs s, e)
    | inr e ↦ rw (e, at_key-add_self key s groups xs (rw e at h), e)
  ]

  at_key-add_ne :
      (key k : String) (s : A) (groups : List (String × List A))
      → k ≢ key
      → at_key key (add_to_group k s groups) ≡ at_key key groups
  unfolding add_to_group
  at_key-add_ne key k s [] h = ground (arith, eq_iff k key)
  at_key-add_ne key k s ((k', group) ∷ groups) h =
      ground (arith, eq_iff k key, eq_iff k' key, eq_iff k' k, at_key-add_ne key k s groups h)

  All-snoc : (P : A → Type 0) (xs : List A) (s : A) → All P xs → P s → All P (xs ++ s ∷ [])
  All-snoc P [] s h p = (p, tt)
  All-snoc P (x ∷ xs) s (hx, h) p = (hx, All-snoc P xs s h p)

module _ {ℓ} {A : Type ℓ} (key_of : A → String) where
  -- The items one after another, from the groups there are.
  unfoldable pub group_all : List A → List (String × List A) → List (String × List A)
  group_all [] groups = groups
  group_all (s ∷ xs) groups = group_all xs (add_to_group (key_of s) s groups)

  unfoldable pub group_by : List A → List (String × List A)
  group_by xs = group_all xs []

  -- An item that belongs to a key.
  abbrev pub of_key : String → A → Bool
  of_key key s = str_eq (key_of s) key

  -- Under each key there is at most one group, of the items that were added for it.
  abbrev Holds : List (String × List A) → List A → Type ℓ
  Holds groups xs = (key : String) → at_key key groups ≡ single (filter (of_key key) xs)

  filter_kept :
      (key : String) (s : A) (xs : List A)
      → of_key key s ≡ true
      → filter (of_key key) (xs ++ s ∷ []) ≡ filter (of_key key) xs ++ s ∷ []
  filter_kept key s xs e = filter-append (of_key key) xs (s ∷ []) ∙ rw e

  filter_dropped :
      (key : String) (s : A) (xs : List A)
      → of_key key s ≡ false
      → filter (of_key key) (xs ++ s ∷ []) ≡ filter (of_key key) xs
  filter_dropped key s xs e =
      filter-append (of_key key) xs (s ∷ [])
      ∙ ap (λ b. filter (of_key key) xs ++ (if b then s ∷ [] else [])) e
      ∙ append-nil (filter (of_key key) xs)

  add_to_group-Holds :
      (s : A) (groups : List (String × List A)) (xs : List A)
      → Holds groups xs
      → Holds (add_to_group (key_of s) s groups) (xs ++ s ∷ [])
  add_to_group-Holds s groups xs h key = elim (Bool-cases (of_key key s)) [
    | inl e ↦
        ap (λ k. at_key key (add_to_group k s groups)) ((eq_iff (key_of s) key).0 e)
        ∙ at_key-add_self key s groups (filter (of_key key) xs) (h key)
        ∙ ap single (sym (filter_kept key s xs e))
    | inr e ↦
        at_key-add_ne key (key_of s) s groups (λ k. ground (arith, e, eq_iff (key_of s) key, k))
        ∙ h key
        ∙ ap single (sym (filter_dropped key s xs e))
  ]

  group_all-Holds :
      (later xs : List A) (groups : List (String × List A))
      → Holds groups xs
      → Holds (group_all later groups) (xs ++ later)
  unfolding group_all
  group_all-Holds [] xs groups h key =
      h key ∙ ap (λ xs. single (filter (of_key key) xs)) (sym (append-nil xs))
  group_all-Holds (s ∷ later) xs groups h key =
      group_all-Holds later (xs ++ s ∷ []) (add_to_group (key_of s) s groups)
        (add_to_group-Holds s groups xs h) key
      ∙ ap (λ xs. single (filter (of_key key) xs)) (append_assoc xs (s ∷ []) later)

  -- Every group holds items of its own key only, and at least one.
  abbrev pub Pure : String × List A → Type 0
  Pure (k, group) = (0 < length group) × All (λ s. key_of s ≡ k) group

  add_to_group-Pure :
      (s : A) (groups : List (String × List A))
      → All Pure groups
      → All Pure (add_to_group (key_of s) s groups)
  unfolding add_to_group
  add_to_group-Pure s [] h = ((omega arith, (refl, tt)), tt)
  add_to_group-Pure s ((k, group) ∷ groups) ((some_, own), h) =
      elim (Bool-cases (str_eq k (key_of s))) [
        | inl e ↦ rw e (
          (
            omega (arith, length-append group (s ∷ [])),
            All-snoc _ group s own (sym ((eq_iff k (key_of s)).0 e)),
          ),
          h,
        )
        | inr e ↦ rw e ((some_, own), add_to_group-Pure s groups h)
      ]

  group_all-Pure :
      (later : List A) (groups : List (String × List A))
      → All Pure groups
      → All Pure (group_all later groups)
  unfolding group_all
  group_all-Pure [] groups h = h
  group_all-Pure (s ∷ later) groups h =
      group_all-Pure later (add_to_group (key_of s) s groups) (add_to_group-Pure s groups h)

  -- A group of one key has an item of another key, or it has not.
  any-of_key :
      (key k : String) (group : List A) → Pure (k, group) → any (of_key key) group ≡ str_eq k key
  any-of_key key k [] (h, own) = absurd (omega (arith, h))
  any-of_key key k (s ∷ []) (h, (e, own)) =
      ap (λ x. str_eq x key || false) e ∙ or_false (str_eq k key)
  any-of_key key k (s ∷ s' ∷ group) (h, (e, own)) =
      ap (λ x. str_eq x key || any (of_key key) (s' ∷ group)) e
      ∙ ap (λ b. str_eq k key || b) (any-of_key key k (s' ∷ group) (omega arith, own))
      ∙ or_same (str_eq k key)

  filter-at_key :
      (key : String) (groups : List (String × List A))
      → All Pure groups
      → filter (any (of_key key)) (map (λ e. e.1) groups) ≡ at_key key groups
  filter-at_key key [] h = refl
  filter-at_key key ((k, group) ∷ groups) (own, h) =
      rw (any-of_key key k group own, filter-at_key key groups h)

  Pure-filled :
      (groups : List (String × List A))
      → All Pure groups
      → All (λ group. 0 < length group) (map (λ e. e.1) groups)
  Pure-filled [] h = tt
  Pure-filled (e ∷ groups) ((some_, own), h) = (some_, Pure-filled groups h)

  -- What holds of every item holds of every item of every group.
  add_to_group-All :
      (P : A → Type ℓ) (key : String) (s : A) (groups : List (String × List A))
      → P s
      → All (λ e. All P e.1) groups
      → All (λ e. All P e.1) (add_to_group key s groups)
  unfolding add_to_group
  add_to_group-All P key s [] p h = ((p, tt), tt)
  add_to_group-All P key s ((k, group) ∷ groups) p h = elim (Bool-cases (str_eq k key)) [
    | inl e ↦ rw e (All-append P group (s ∷ []) h.0 (p, tt), h.1)
    | inr e ↦ rw e (h.0, add_to_group-All P key s groups p h.1)
  ]

  group_all-All :
      (P : A → Type ℓ) (xs : List A) (groups : List (String × List A))
      → All P xs
      → All (λ e. All P e.1) groups
      → All (λ e. All P e.1) (group_all xs groups)
  unfolding group_all
  group_all-All P [] groups p h = h
  group_all-All P (s ∷ xs) groups p h =
      group_all-All P xs (add_to_group (key_of s) s groups) p.1
        (add_to_group-All P (key_of s) s groups p.0 h)

  pub group_by-All : (P : A → Type ℓ) (xs : List A) → All P xs → All (λ e. All P e.1) (group_by xs)
  unfolding group_by
  group_by-All P xs h = group_all-All P xs [] h tt

  -- For every key, the groups that have an item of the key are none where there is no such item,
  -- and else one, which is the items of that key in their order; and no group is empty.
  pub group_by_lem :
      (xs : List A) (key : String)
      → (filter (any (of_key key)) (map (λ e. e.1) (group_by xs)) ≡ single (filter (of_key key) xs))
        × All (λ group. 0 < length group) (map (λ e. e.1) (group_by xs))
  unfolding group_by
  group_by_lem xs key = (
    filter-at_key key (group_all xs []) (group_all-Pure xs [] tt)
        ∙ group_all-Holds xs [] [] (λ k. refl) key,
    Pure-filled (group_all xs []) (group_all-Pure xs [] tt),
  )

  -- The items of a group are of its key.
  pub group_by-Pure : (xs : List A) → All Pure (group_by xs)
  unfolding group_by
  group_by-Pure xs = group_all-Pure xs [] tt

  -- Under every key is one group, of the items of the key, or none if there is no such item.
  pub group_by-at_key :
      (xs : List A) (key : String) → at_key key (group_by xs) ≡ single (filter (of_key key) xs)
  unfolding group_by
  group_by-at_key xs key = group_all-Holds xs [] [] (λ k. refl) key

module _ {ℓ κ} {A : Type ℓ} {B : Type κ} (f : List A → List B) where
  -- What a function makes of each group, one after another.
  abbrev pub each_group : List (String × List A) → List B
  each_group [] = []
  each_group ((k, group) ∷ groups) = f group ++ each_group groups

  flatten-single : (xs : List A) → f [] ≡ [] → flatten (map f (single xs)) ≡ f xs
  flatten-single [] nothing = sym nothing
  flatten-single (x ∷ xs) nothing = append-nil (f (x ∷ xs))

  module _ (key_of : A → String) (is_of : String → B → Bool) where
    -- What is made of a group belongs to the key of the group.
    abbrev pub Keyed : Type (ℓ ⊔ κ)
    Keyed =
        (k key : String) (xs : List A)
        → All (λ x. key_of x ≡ k) xs
        → filter (is_of key) (f xs) ≡ (if str_eq k key then f xs else [])

    filter-each_group :
        Keyed
        → (key : String) (groups : List (String × List A)) → All (Pure key_of) groups
        → filter (is_of key) (each_group groups) ≡ flatten (map f (at_key key groups))
    filter-each_group keyed key [] h = refl
    filter-each_group keyed key ((k, group) ∷ groups) ((some_, own), h) =
        filter-append (is_of key) (f group) (each_group groups)
        ∙ (λ i. keyed k key group own i ++ filter-each_group keyed key groups h i)
        ∙ (elim (Bool-cases (str_eq k key)) [ inl e ↦ rw e refl | inr e ↦ rw e refl ])

    -- What is made of all the groups has, for a key, what is made of the items of that key.
    pub each_group_lem :
        Keyed
        → f [] ≡ []
        → (xs : List A) (key : String)
        → filter (is_of key) (each_group (group_by key_of xs)) ≡ f (filter (of_key key_of key) xs)
    each_group_lem keyed nothing xs key =
        filter-each_group keyed key (group_by key_of xs) (group_by-Pure key_of xs)
        ∙ ap (λ groups. flatten (map f groups)) (group_by-at_key key_of xs key)
        ∙ flatten-single (filter (of_key key_of key) xs) nothing
