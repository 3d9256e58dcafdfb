-- ===== src/Cache/Pages/Fields.antt =====
-- The fields of a stored set: which value stands under the name of a position.
use text.Mathlib.Text.{◌==◌ as str_eq}
use text.Mathlib.TextEquality.{eq_iff}
use whisky_scrapper_node.Prelude.{
  ℕ, zero, suc, String, ◌+◌, ◌-◌, ◌*◌, ◌/◌, ◌≤◌, ◌<◌, ◌≡◌, ◌≢◌, refl, sym, ap, ◌∙◌, Option, none,
  some, List, [], ◌∷◌, ◌++◌, length, take, drop, All, get_elem?-slice, get_elem?, flatten-slices,
  drop_all, ltb→lt, ltb-false→le, ltb, length-drop, slices, slices_lem, flatten, arith, false,
  Bool-cases, inl, inr, if◌then◌else◌, length-take, take_nil, flatten,
}
use whisky_scrapper_node.Cache.Hashes.{found, or_else}
use whisky_scrapper_node.Cache.Pages.{chunks, numbered, chunk_fields}

pub or_else_assoc :
    {A : Type 0} (a b c : Option A) → or_else (or_else a b) c ≡ or_else a (or_else b c)
or_else_assoc none b c = refl
or_else_assoc (some x) b c = refl

pub or_else-none : {A : Type 0} (a : Option A) → or_else a none ≡ a
or_else-none none = refl
or_else-none (some x) = refl

module _ {A : Type 0} where
  pub found-append :
      (f : String) (xs ys : List (String × A))
      → found f (xs ++ ys) ≡ or_else (found f ys) (found f xs)
  unfolding found
  found-append f [] ys = sym (or_else-none (found f ys))
  found-append f ((name, value) ∷ xs) ys =
      ap (λ o. or_else o (if str_eq name f then some value else none)) (found-append f xs ys)
      ∙ or_else_assoc (found f ys) (found f xs) (if str_eq name f then some value else none)

name_apart : (decimal : ℕ → String) (n p : ℕ) → str_eq (decimal n) (decimal p) ≡ false → n ≢ p
name_apart decimal n p e h = cc (e, (eq_iff (decimal n) (decimal p)).1 (ap decimal h))

module _ {A : Type 0} (decimal : ℕ → String)
    (injective : (m n : ℕ) → decimal m ≡ decimal n → m ≡ n) where
  found-before : (p n : ℕ) (xs : List A) → p < n → found (decimal p) (numbered decimal n xs) ≡ none
  unfolding found
  found-before p n [] h = refl
  found-before p n (x ∷ xs) h = elim (Bool-cases (str_eq (decimal n) (decimal p))) [
    | inl e ↦ absurd (omega (arith, h, injective n p ((eq_iff (decimal n) (decimal p)).0 e)))
    | inr e ↦ rw (found-before p (n + 1) xs (omega (arith, h)), e) refl
  ]

  found-numbered :
      (p n : ℕ) (xs : List A)
      → n ≤ p
      → found (decimal p) (numbered decimal n xs) ≡ get_elem? xs (p - n)
  unfolding found
  found-numbered p n [] h = refl
  found-numbered p n (x ∷ xs) h = elim (Bool-cases (str_eq (decimal n) (decimal p))) [
    | inl e ↦
        let same : n ≡ p = injective n p ((eq_iff (decimal n) (decimal p)).0 e) in
        rw (found-before p (n + 1) xs (omega (arith, same)), e)
          (ap (get_elem? (x ∷ xs)) {x = 0} {y = p - n} (omega (arith, same)))
    | inr e ↦
        let above : n + 1 ≤ p = omega (arith, h, name_apart decimal n p e) in
        rw (found-numbered p (n + 1) xs above, e)
          (or_else-none (get_elem? xs (p - (n + 1)))
            ∙ ap (get_elem? (x ∷ xs)) {x = suc (p - (n + 1))} {y = p - n} (omega (arith, above)))
  ]

module _ {A : Type 0} (decimal : ℕ → String) where
  numbered-append :
      (n : ℕ) (xs ys : List A)
      → numbered decimal n (xs ++ ys) ≡ numbered decimal n xs ++ numbered decimal (n + length xs) ys
  numbered-append n [] ys = ap (λ k. numbered decimal k ys) (omega arith)
  numbered-append n (x ∷ xs) ys =
      ap (λ ys. (decimal n, x) ∷ ys)
        (numbered-append (n + 1) xs ys
          ∙ ap (λ k. numbered decimal (n + 1) xs ++ numbered decimal k ys) (omega arith))

  -- Nothing is left after a slice that is short, and after one that is not the next begins.
  numbered-next :
      (size count i : ℕ) (items : List A)
      → let rest = flatten (slices count (i + 1) size items) in
        numbered decimal ((i + 1) * size) rest
        ≡ numbered decimal (i * size + length (take size (drop (i * size) items))) rest
  numbered-next size count i items = elim (Bool-cases (ltb (length items) ((i + 1) * size))) [
    | inl e ↦
        rw
          (
            flatten-slices size count (i + 1) items,
            drop_all ((i + 1) * size) items (omega (arith, ltb→lt _ _ e)),
            take_nil {A = A} (count * size),
          )
          refl
    | inr e ↦
        ap (λ k. numbered decimal k (flatten (slices count (i + 1) size items)))
          {x = (i + 1) * size} {y = i * size + length (take size (drop (i * size) items))}
          (omega (
            arith,
            length-take size (drop (i * size) items),
            length-drop (i * size) items,
            ltb-false→le _ _ e,
          ))
  ]

  -- The fields of slices are the numbered items, one after another.
  flatten-chunk_fields :
      (size count i : ℕ) (items : List A)
      → flatten (chunk_fields decimal size i (slices count i size items))
        ≡ numbered decimal (i * size) (flatten (slices count i size items))
  unfolding slices chunk_fields
  flatten-chunk_fields size zero i items = refl
  flatten-chunk_fields size (suc count) i items =
      ap (λ ys. numbered decimal (i * size) (take size (drop (i * size) items)) ++ ys)
        (flatten-chunk_fields size count (i + 1) items ∙ numbered-next size count i items)
      ∙ sym (
          numbered-append (i * size) (take size (drop (i * size) items))
            (flatten (slices count (i + 1) size items)))

-- Among the fields of the chunks, the name of a position has the item of that position.
pub found-chunk_fields :
    {A : Type 0} (decimal : ℕ → String) (injective : (m n : ℕ) → decimal m ≡ decimal n → m ≡ n)
    (p size : ℕ) (items : List A)
    → 0 < size
    → found (decimal p) (flatten (chunk_fields decimal size 0 (chunks items size)))
      ≡ get_elem? items p
unfolding chunks
found-chunk_fields decimal injective p size items h =
    ap (found (decimal p)) (
      flatten-chunk_fields decimal size ((length items + size - 1) / size) 0 items
      ∙ ap (numbered decimal (0 * size)) (slices_lem size items h).0
      ∙ ap (λ k. numbered decimal k items) {x = 0 * size} {y = 0} (omega arith))
    ∙ found-numbered decimal injective p 0 items (omega arith)
    ∙ ap (get_elem? items) {x = p - 0} {y = p} (omega arith)

-- Within one chunk too, the name of a position has no item or the item of that position.
abbrev pub Of : {A : Type 0} → (ℕ → String) → List A → List (String × A) → Type 0
Of {A} decimal items fields =
    (p : ℕ) (x : A) → found (decimal p) fields ≡ some x → get_elem? items p ≡ some x

module _ {A : Type 0} (decimal : ℕ → String)
    (injective : (m n : ℕ) → decimal m ≡ decimal n → m ≡ n) where
  slice-Of :
      (k n : ℕ) (items : List A) → Of decimal items (numbered decimal n (take k (drop n items)))
  slice-Of k n items p x h = elim (Bool-cases (ltb p n)) [
    | inl e ↦
        absurd (cc (h, found-before decimal injective p n (take k (drop n items)) (ltb→lt p n e)))
    | inr e ↦
        ap (get_elem? items) {x = p} {y = n + (p - n)} (omega (arith, ltb-false→le p n e))
        ∙ get_elem?-slice k n (p - n) items x (
            sym (found-numbered decimal injective p n (take k (drop n items)) (ltb-false→le p n e))
            ∙ h)
  ]

  slices-Of :
      (size count i : ℕ) (items : List A)
      → All (Of decimal items) (chunk_fields decimal size i (slices count i size items))
  unfolding slices chunk_fields
  slices-Of size zero i items = tt
  slices-Of size (suc count) i items =
      (slice-Of size (i * size) items, slices-Of size count (i + 1) items)

  pub chunk_fields-Of :
      (size : ℕ) (items : List A)
      → All (Of decimal items) (chunk_fields decimal size 0 (chunks items size))
  unfolding chunks
  chunk_fields-Of size items = slices-Of size ((length items + size - 1) / size) 0 items
