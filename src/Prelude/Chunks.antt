-- ===== src/Prelude/Chunks.antt =====
-- A list cut into slices of one size.
use native.Mathlib.Nat.{div-lt_iff_lt-mul}
use Prim.Native.Nat.{ℕ, zero, suc, ◌+◌, ◌-◌, ◌*◌, ◌/◌, ◌≤◌, ◌<◌}
use mathlib.Core.Path.{◌≡◌, sym, ap, ◌∙◌}
use mathlib.Core.List.{List, [], ◌∷◌, ◌++◌}
use native.Mathlib.Omega.{arith}
use whisky_scrapper_node.Prelude.Lists.{
  length, take, drop, All, flatten, take_add, drop_add, take_all, length-take,
}

-- The slices of a size, so many of them, from the one with a given index on.
unfoldable pub slices {ℓ} : {A : Type ℓ} → ℕ → ℕ → ℕ → List A → List (List A)
slices zero index size items = []
slices (suc count) index size items =
    take size (drop (index * size) items) ∷ slices count (index + 1) size items

-- As many chunks as `Math.ceil` says are enough.
enough : (size n : ℕ) → 0 < size → n ≤ (n + size - 1) / size * size
enough size n h =
    let below =
      (div-lt_iff_lt-mul {x = n + size - 1} {y = (n + size - 1) / size + 1} h).0 (omega arith) in
    omega (arith, below, h)

module _ {ℓ} {A : Type ℓ} where
  pub flatten-slices :
      (size count index : ℕ) (items : List A)
      → flatten (slices count index size items) ≡ take (count * size) (drop (index * size) items)
  unfolding slices
  flatten-slices size zero index items =
      ap (λ n. take n (drop (index * size) items)) {x = 0} {y = 0 * size} (omega arith)
  flatten-slices size (suc count) index items =
      ap (λ xs. take size (drop (index * size) items) ++ xs)
        (flatten-slices size count (index + 1) items)
      ∙ ap (λ n. take size (drop (index * size) items) ++ take (count * size) (drop n items))
          (omega arith)
      ∙ ap (λ xs. take size (drop (index * size) items) ++ take (count * size) xs)
          (drop_add (index * size) size items)
      ∙ sym (take_add size (count * size) (drop (index * size) items))
      ∙ ap (λ n. take n (drop (index * size) items)) (omega arith)

  slices-length :
      (size count index : ℕ) (items : List A)
      → All (λ xs. length xs ≤ size) (slices count index size items)
  unfolding slices
  slices-length size zero index items = tt
  slices-length size (suc count) index items = (
    omega (arith, length-take size (drop (index * size) items)),
    slices-length size count (index + 1) items,
  )

  -- `Math.ceil` of the quotient many slices are the list, and none is longer than the size.
  pub slices_lem :
      (size : ℕ) (items : List A)
      → 0 < size
      → let parts = slices ((length items + size - 1) / size) 0 size items in
        (flatten parts ≡ items) × All (λ xs. length xs ≤ size) parts
  slices_lem size items h = (
    flatten-slices size ((length items + size - 1) / size) 0 items
        ∙ ap (λ n. take ((length items + size - 1) / size * size) (drop n items)) {x = 0 * size}
            {y = 0} (omega arith)
        ∙ take_all _ items (enough size (length items) h),
    slices-length size ((length items + size - 1) / size) 0 items,
  )
