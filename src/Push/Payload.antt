-- ===== src/Push/Payload.antt =====
-- How many bottlings a payload names.
use whisky_scrapper_node.Prelude.{
  All, [], ◌∷◌, ℕ, zero, suc, ◌≤◌, ◌<◌, ◌≡◌, ◌⊎◌, inl, inr, refl, List, String, length, min, ltb,
  ltb→lt, ltb-false→le, Bool-cases, arith, true, if◌then◌else◌,
}
use whisky_scrapper_node.Push.{
  PushDigestItem, PushDigestPayload, Runtime, max_items, payload_max_bytes, render, url_of, shrink,
  payload,
}

-- The numbers above one number, down from another.
abbrev pub above : ℕ → ℕ → List ℕ
above shown zero = []
above shown (suc n) = if ltb shown (suc n) then suc n ∷ above shown n else []

above_self : (n : ℕ) → above n n ≡ []
above_self zero = refl
above_self (suc n) = ground arith

module _ (runtime : Runtime) where
  open runtime use {bytes}

  -- So many bottlings at most: the payload names a number of them, at least one if there may be
  -- one; it names no more than one or is within the budget; and with every larger number it would
  -- be over the budget.
  abbrev pub Fits : List PushDigestItem → String → ℕ → PushDigestPayload → Type 0
  Fits items url most p =
      (shown : ℕ) × (p ≡ render runtime items shown url)
      × (shown ≤ most)
      × (min 1 most ≤ shown)
      × ((shown ≤ 1) ⊎ (bytes p ≤ payload_max_bytes))
      × All (λ k. payload_max_bytes < bytes (render runtime items k url)) (above shown most)

  shrink-Fits :
      (items : List PushDigestItem) (url : String) (most : ℕ)
      → Fits items url most (shrink runtime items url most)
  unfolding shrink
  shrink-Fits items url zero = (0, refl, omega arith, omega arith, inl (omega arith), tt)
  shrink-Fits items url (suc zero) = (1, refl, omega arith, omega arith, inl (omega arith), tt)
  shrink-Fits items url (suc (suc n)) =
      elim (Bool-cases (ltb payload_max_bytes (bytes (render runtime items (suc (suc n)) url)))) [
        | inl e ↦
            let (shown, same, below, some_, fits, larger) = shrink-Fits items url (suc n) in
            let step : ltb shown (suc (suc n)) ≡ true = ground (arith, below) in
            rw (e, shrink)
              (
                shown,
                same,
                omega (arith, below),
                omega (arith, some_),
                fits,
                rw step (ltb→lt _ _ e, larger),
              )
        | inr e ↦
            rw (e, shrink)
              (
                suc (suc n),
                refl,
                omega arith,
                omega arith,
                inr (ltb-false→le _ _ e),
                rw (above_self (suc (suc n))) tt,
              )
      ]

  -- The payload names as many of the first five items as the budget of 3500 bytes allows, and one at
  -- least if there is an item: with any larger number up to five it would be over the budget.
  pub payload_lem :
      (items : List PushDigestItem)
      → Fits items (url_of items) (min (length items) max_items) (payload runtime items)
  unfolding payload
  payload_lem items = shrink-Fits items (url_of items) (min (length items) max_items)
