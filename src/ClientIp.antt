-- ===== src/ClientIp.antt =====
-- The address a request came from (utils/client-ip.util.ts). How the runtime splits a text at commas
-- and trims it is a parameter.
pub mod Hops
mod Tests
use Prim.Native.String
use text.Mathlib.Text.{◌==◌ as str_eq}
use whisky_scrapper_node.Prelude.{
  String, ◌≡◌, Option, none, some, not, List, [], ◌∷◌, ◌++◌, map, filter,
}

infixr 66 ◌++ₛ◌
abbrev pub ◌++ₛ◌ : String → String → String
s ++ₛ t = String.◌++◌ s t

pub record Runtime : Type 0 where
  -- `split(',')`
  pub split : String → List String
  pub trim : String → String
  -- A comma separates.
  pub split-append : (a b : String) → split (a ++ₛ "," ++ₛ b) ≡ split a ++ split b

-- The value of a header: absent, a text, or an array where the header repeated.
pub data HeaderValue : Type 0 where
  absent : HeaderValue
  one : String → HeaderValue
  repeated : List String → HeaderValue

-- `at(-1)`
abbrev pub last_of : List String → Option String
last_of [] = none
last_of (x ∷ []) = some x
last_of (x ∷ y ∷ xs) = last_of (y ∷ xs)

abbrev pub raw_of : HeaderValue → String
raw_of absent = ""
raw_of (one value) = value
raw_of (repeated values) = elim (last_of values) [ none ↦ "" | some value ↦ value ]

module _ (runtime : Runtime) where
  open runtime use {split, trim}

  unfoldable pub last_hop : HeaderValue → Option String
  last_hop value = last_of (filter (λ hop. not (str_eq hop "")) (map trim (split (raw_of value))))

  -- The `reduce` over the trusted headers, from what is found.
  unfoldable pub resolve_from : (String → HeaderValue) → List String → Option String → Option String
  resolve_from headers [] found = found
  resolve_from headers (header ∷ trusted) found =
      resolve_from headers trusted
        (elim found [ none ↦ last_hop (headers header) | some address ↦ some address ])

  unfoldable pub resolve : (String → HeaderValue) → String → List String → String
  resolve headers fallback trusted = elim (resolve_from headers trusted none) [
    | none ↦ fallback
    | some address ↦ address
  ]
