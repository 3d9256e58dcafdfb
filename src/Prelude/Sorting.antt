-- ===== src/Prelude/Sorting.antt =====
-- `Array.prototype.sort` as a stable insertion sort, by a comparison that answers an `Ordering`.
use Prim.Native.Nat.{ℕ, compare, Ordering}
use native.Mathlib.Omega.{arith}
use mathlib.Core.Path.{◌≡◌, refl, sym, ap, ◌∙◌}
use mathlib.Core.Logic.{◌≢◌, ◌⊎◌, inl, inr}
use mathlib.Core.List.{List, [], ◌∷◌, Perm, map}
use mathlib.Core.List.Perm
use whisky_scrapper_node.Prelude.Lists.{All}

-- The answer when its arguments change places.
abbrev pub flip : Ordering → Ordering
flip Ordering.lt = Ordering.gt
flip Ordering.eq = Ordering.eq
flip Ordering.gt = Ordering.lt

-- The second comparison where the first says "equal": `first || second`.
abbrev pub or_then : Ordering → Ordering → Ordering
or_then Ordering.eq o = o
or_then Ordering.lt o = Ordering.lt
or_then Ordering.gt o = Ordering.gt

flip-or_then : (a b : Ordering) → flip (or_then a b) ≡ or_then (flip a) (flip b)
flip-or_then Ordering.lt b = refl
flip-or_then Ordering.eq b = refl
flip-or_then Ordering.gt b = refl

pub or_then-flip :
    (a b : Ordering) {a' b' : Ordering}
    → a' ≡ flip a
    → b' ≡ flip b
    → or_then a' b' ≡ flip (or_then a b)
or_then-flip a b {a'} {b'} h k =
    ap (λ o. or_then o b') h ∙ ap (or_then (flip a)) k ∙ sym (flip-or_then a b)

pub compare-flip : (a b : ℕ) → compare b a ≡ flip (compare a b)
compare-flip a b = ground arith

pub Ordering-cases : (o : Ordering) → (o ≡ Ordering.gt) ⊎ ((o ≡ Ordering.lt) ⊎ (o ≡ Ordering.eq))
Ordering-cases Ordering.gt = inl refl
Ordering-cases Ordering.lt = inr (inl refl)
Ordering-cases Ordering.eq = inr (inr refl)

module _ {ℓ} {A : Type ℓ} where
  -- Before the first item that is greater; equal items keep their places.
  unfoldable pub insert_sorted : (A → A → Ordering) → A → List A → List A
  insert_sorted cmp x [] = x ∷ []
  insert_sorted cmp x (y ∷ ys) = elim (cmp x y) [
    | Ordering.gt ↦ y ∷ insert_sorted cmp x ys
    | Ordering.lt ↦ x ∷ y ∷ ys
    | Ordering.eq ↦ x ∷ y ∷ ys
  ]

  unfoldable pub sort : (A → A → Ordering) → List A → List A
  sort cmp [] = []
  sort cmp (x ∷ xs) = insert_sorted cmp x (sort cmp xs)

  insert_sorted-perm :
      (cmp : A → A → Ordering) (x : A) (xs : List A) → Perm (insert_sorted cmp x xs) (x ∷ xs)
  unfolding insert_sorted
  insert_sorted-perm cmp x [] = Perm.refl (x ∷ [])
  insert_sorted-perm cmp x (y ∷ ys) =
      elim (cmp x y)
        as (λ o.
          Perm
            (elim o as (λ _. List A) [
              | Ordering.gt ↦ y ∷ insert_sorted cmp x ys
              | Ordering.lt ↦ x ∷ y ∷ ys
              | Ordering.eq ↦ x ∷ y ∷ ys
            ])
            (x ∷ y ∷ ys)) [
              | Ordering.lt ↦ Perm.refl (x ∷ y ∷ ys)
              | Ordering.eq ↦ Perm.refl (x ∷ y ∷ ys)
              | Ordering.gt ↦
                  Perm.trans (Perm.cons y (insert_sorted-perm cmp x ys)) (Perm.swap x y ys)
            ]

  -- A sorted list has the items of the list, as often.
  pub sort-perm : (cmp : A → A → Ordering) (xs : List A) → Perm (sort cmp xs) xs
  unfolding sort
  sort-perm cmp [] = Perm.refl []
  sort-perm cmp (x ∷ xs) =
      Perm.trans (insert_sorted-perm cmp x (sort cmp xs)) (Perm.cons x (sort-perm cmp xs))

  -- No item is greater than the next one.
  abbrev pub Ascends : (A → A → Ordering) → List A → Type 0
  Ascends cmp [] = Unit
  Ascends cmp (x ∷ []) = Unit
  Ascends cmp (x ∷ y ∷ xs) = (cmp x y ≢ Ordering.gt) × Ascends cmp (y ∷ xs)

  pub Ascends-tail :
      (cmp : A → A → Ordering) (x : A) (xs : List A) → Ascends cmp (x ∷ xs) → Ascends cmp xs
  Ascends-tail cmp x [] h = tt
  Ascends-tail cmp x (y ∷ ys) h = h.1

  cons-insert_sorted-Ascends :
      (cmp : A → A → Ordering) (x y : A) (zs : List A)
      → cmp y x ≢ Ordering.gt
      → Ascends cmp (y ∷ zs)
      → Ascends cmp (insert_sorted cmp x zs)
      → Ascends cmp (y ∷ insert_sorted cmp x zs)
  unfolding insert_sorted
  cons-insert_sorted-Ascends cmp x y [] le h ih = (le, tt)
  cons-insert_sorted-Ascends cmp x y (z ∷ zs) le h ih = elim (Ordering-cases (cmp x z)) [
    | inl e ↦ rw (e, insert_sorted) (h.0, rw (e, insert_sorted) at ih)
    | inr (inl e) ↦ rw (e, insert_sorted) (le, rw (e, insert_sorted) at ih)
    | inr (inr e) ↦ rw (e, insert_sorted) (le, rw (e, insert_sorted) at ih)
  ]

  insert_sorted-Ascends :
      (cmp : A → A → Ordering)
      → ((x y : A) → cmp y x ≡ flip (cmp x y))
      → (x : A) (xs : List A) → Ascends cmp xs
      → Ascends cmp (insert_sorted cmp x xs)
  unfolding insert_sorted
  insert_sorted-Ascends cmp turn x [] h = tt
  insert_sorted-Ascends cmp turn x (y ∷ ys) h = elim (Ordering-cases (cmp x y)) [
    | inr (inl e) ↦ rw (e, insert_sorted) ((λ k. cc), h)
    | inr (inr e) ↦ rw (e, insert_sorted) ((λ k. cc), h)
    | inl e ↦
        rw (e, insert_sorted)
          (cons-insert_sorted-Ascends cmp x y ys (λ k. cc (turn x y)) h
            (insert_sorted-Ascends cmp turn x ys (Ascends-tail cmp y ys h)))
  ]

  -- A sorted list ascends, for a comparison that answers both ways alike.
  pub sort-Ascends :
      (cmp : A → A → Ordering)
      → ((x y : A) → cmp y x ≡ flip (cmp x y))
      → (xs : List A) → Ascends cmp (sort cmp xs)
  unfolding sort
  sort-Ascends cmp turn [] = tt
  sort-Ascends cmp turn (x ∷ xs) =
      insert_sorted-Ascends cmp turn x (sort cmp xs) (sort-Ascends cmp turn xs)

module _ {ℓ κ} {A : Type ℓ} (P : A → Type κ) (cmp : A → A → Ordering) where
  pub insert_sorted-All : (x : A) (xs : List A) → P x → All P xs → All P (insert_sorted cmp x xs)
  unfolding insert_sorted
  insert_sorted-All x [] p h = (p, tt)
  insert_sorted-All x (y ∷ ys) p h = elim (Ordering-cases (cmp x y)) [
    | inl e ↦ rw (e, insert_sorted) (h.0, insert_sorted-All x ys p h.1)
    | inr (inl e) ↦ rw (e, insert_sorted) (p, h)
    | inr (inr e) ↦ rw (e, insert_sorted) (p, h)
  ]

  -- What holds of every item holds of every item of the sorted list.
  pub sort-All : (xs : List A) → All P xs → All P (sort cmp xs)
  unfolding sort
  sort-All [] h = tt
  sort-All (x ∷ xs) h = insert_sorted-All x (sort cmp xs) h.0 (sort-All xs h.1)

module _ {ℓ κ μ} {A : Type ℓ} {B : Type κ} (f : A → B) (cmp : A → A → Ordering)
    (cmp' : B → B → Ordering) where
  insert_sorted-map :
      (x : A) (ys : List A)
      → All (λ y. cmp' (f x) (f y) ≡ cmp x y) ys
      → insert_sorted cmp' (f x) (map f ys) ≡ map f (insert_sorted cmp x ys)
  unfolding insert_sorted
  insert_sorted-map x [] h = refl
  insert_sorted-map x (y ∷ ys) h = elim (Ordering-cases (cmp x y)) [
    | inl e ↦ rw (h.0, insert_sorted) (rw (e, insert_sorted) (rw (insert_sorted-map x ys h.1) refl))
    | inr (inl e) ↦ rw (h.0, insert_sorted) (rw (e, insert_sorted) refl)
    | inr (inr e) ↦ rw (h.0, insert_sorted) (rw (e, insert_sorted) refl)
  ]

  agreeing :
      (R : A → Type μ)
      → ((x y : A) → R x → R y → cmp' (f x) (f y) ≡ cmp x y)
      → (x : A) (ys : List A) → R x
      → All R ys
      → All (λ y. cmp' (f x) (f y) ≡ cmp x y) ys
  agreeing R same x [] rx h = tt
  agreeing R same x (y ∷ ys) rx h = (same x y rx h.0, agreeing R same x ys rx h.1)

  -- A function that leaves the comparison of the items alone may be applied before sorting or after.
  pub sort-map :
      (R : A → Type μ)
      → ((x y : A) → R x → R y → cmp' (f x) (f y) ≡ cmp x y)
      → (xs : List A) → All R xs
      → sort cmp' (map f xs) ≡ map f (sort cmp xs)
  unfolding sort
  sort-map R same [] h = refl
  sort-map R same (x ∷ xs) h = rw (sort-map R same xs h.1) (
      insert_sorted-map x (sort cmp xs)
        (agreeing R same x (sort cmp xs) h.0 (sort-All R cmp xs h.1)))
