-- ===== src/ClientIp/Hops.antt =====
-- Which hop of a header counts.
use text.Mathlib.Text.{◌==◌ as str_eq}
use text.Mathlib.TextEquality.{eq_iff}
use whisky_scrapper_node.Prelude.{
  String, ◌≡◌, ◌≢◌, refl, ap, ◌∙◌, Option, none, some, Bool, true, not, List, [], ◌∷◌, ◌++◌, map,
  filter, if◌then◌else◌, All, filter-append, arith,
}
use whisky_scrapper_node.ClientIp.{
  ◌++ₛ◌, Runtime, HeaderValue, last_of, raw_of, last_hop, resolve_from, resolve,
}

last_of-append : (xs : List String) (x : String) → last_of (xs ++ x ∷ []) ≡ some x
last_of-append [] x = refl
last_of-append (y ∷ []) x = refl
last_of-append (y ∷ z ∷ xs) x = last_of-append (z ∷ xs) x

map-append : (f : String → String) (xs ys : List String) → map f (xs ++ ys) ≡ map f xs ++ map f ys
map-append f [] ys = refl
map-append f (x ∷ xs) ys = ap (λ zs. f x ∷ zs) (map-append f xs ys)

abbrev filled_in : String → Bool
filled_in hop = not (str_eq hop "")

filled_in-filled : (hop : String) → hop ≢ "" → filled_in hop ≡ true
filled_in-filled hop filled = ground (arith, eq_iff hop "")

module _ (runtime : Runtime) where
  open runtime use {split, trim}

  -- The hop behind the last comma counts, whatever stands before it.
  last_hop-appended :
      (forged appended peer : String) (value : HeaderValue)
      → raw_of value ≡ forged ++ₛ "," ++ₛ appended
      → split appended ≡ appended ∷ []
      → trim appended ≡ peer
      → peer ≢ ""
      → last_hop runtime value ≡ some peer
  unfolding last_hop
  last_hop-appended forged appended peer value raw whole trimmed filled =
      ap kept
        (ap split raw ∙ runtime.split-append forged appended ∙ ap (λ xs. split forged ++ xs) whole)
      ∙ ap (λ xs. last_of (filter filled_in xs)) (map-append trim (split forged) (appended ∷ []))
      ∙ ap last_of (filter-append filled_in (map trim (split forged)) (trim appended ∷ []))
      ∙ ap (λ hop. last_of (front ++ filter filled_in (hop ∷ []))) trimmed
      ∙ ap (λ kept_. last_of (front ++ (if kept_ then peer ∷ [] else [])))
          (filled_in-filled peer filled)
      ∙ last_of-append front peer
    where
      kept : List String → Option String
      kept hops = last_of (filter filled_in (map trim hops))

      front : List String
      front = filter filled_in (map trim (split forged))

  resolve_from-found :
      (headers : String → HeaderValue) (trusted : List String) (address : String)
      → resolve_from runtime headers trusted (some address) ≡ some address
  unfolding resolve_from
  resolve_from-found headers [] address = refl
  resolve_from-found headers (header ∷ trusted) address = resolve_from-found headers trusted address

  resolve_from-first :
      (headers : String → HeaderValue) (earlier later : List String) (header peer : String)
      → All (λ h. last_hop runtime (headers h) ≡ none) earlier
      → last_hop runtime (headers header) ≡ some peer
      → resolve_from runtime headers (earlier ++ header ∷ later) none ≡ some peer
  unfolding resolve_from
  resolve_from-first headers [] later header peer h found =
      rw (found, resolve_from) (resolve_from-found headers later peer)
  resolve_from-first headers (h ∷ earlier) later header peer (e, rest) found =
      rw (e, resolve_from) (resolve_from-first headers earlier later header peer rest found)

  -- A proxy appends the address of its peer to a trusted header, behind a comma: the address has no
  -- comma of its own and is not blank, and no header that is trusted more carries anything. Then the
  -- address is the peer's, whatever the client wrote into the header, into a header that is trusted
  -- less, or into one that is not trusted.
  pub resolve-appended :
      (headers : String → HeaderValue) (fallback : String) (earlier later : List String)
      (header forged appended peer : String)
      → All (λ h. last_hop runtime (headers h) ≡ none) earlier
      → raw_of (headers header) ≡ forged ++ₛ "," ++ₛ appended
      → split appended ≡ appended ∷ []
      → trim appended ≡ peer
      → peer ≢ ""
      → resolve runtime headers fallback (earlier ++ header ∷ later) ≡ peer
  unfolding resolve
  resolve-appended headers fallback earlier later header forged appended peer none_ raw whole
        trimmed filled =
      ap (λ found. elim found [ none ↦ fallback | some address ↦ address ])
        (resolve_from-first headers earlier later header peer none_
          (last_hop-appended forged appended peer (headers header) raw whole trimmed filled))
