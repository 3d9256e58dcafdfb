-- ===== src/Report/Query/Shared.antt =====
-- Filters that a key does not tell apart select the same rows.
use text.Mathlib.TextEquality.{eq_iff}
use whisky_scrapper_node.Prelude.{
  ℕ, String, ◌≡◌, refl, sym, ap, ◌∙◌, Option, none, some, Bool, true, false, not, ◌&&◌, ◌||◌, List,
  [], ◌∷◌, map, filter, any, arith, Bool-cases, inl, inr,
}
use whisky_scrapper_node.Report.Page.{has}
use whisky_scrapper_node.Report.Key.{Texts, folded}
use whisky_scrapper_node.Report.Key.Sets.{SameSet, values}
use whisky_scrapper_node.Report.Key.Same.{verified}
use whisky_scrapper_node.Report.Key.Shared.{Request, SameRequest}
use whisky_scrapper_node.Report.Query.{
  CatalogueRow, Matching, given, or_none, is_unknown, at_least, at_most, among, any_among, lowered,
  is_trusted, unestablished, in_countries, of_types, is_named, in_regions, has_flavor, is_verified,
  selects,
}

has-filter_unknown :
    (to_lower : String → String) (xs : List String) (z : String)
    → has (map to_lower (filter (λ c. not (is_unknown (to_lower c))) xs)) z
      ≡ has (map to_lower xs) z && not (is_unknown z)
has-filter_unknown to_lower [] z = refl
has-filter_unknown to_lower (x ∷ xs) z = elim (Bool-cases (is_unknown (to_lower x))) [
  | inl e ↦ rw e (
      ground (
        arith,
        has-filter_unknown to_lower xs z,
        e,
        eq_iff z (to_lower x),
        eq_iff (to_lower x) "unknown",
        eq_iff z "unknown",
      ))
  | inr e ↦ rw e (
      ground (
        arith,
        has-filter_unknown to_lower xs z,
        e,
        eq_iff z (to_lower x),
        eq_iff (to_lower x) "unknown",
        eq_iff z "unknown",
      ))
]

-- Some value is there.
abbrev filled : List String → Bool
filled [] = false
filled (x ∷ xs) = true

filled-members :
    (xs ys : List String) → ((z : String) → has xs z ≡ has ys z) → filled xs ≡ filled ys
filled-members [] [] same = refl
filled-members [] (y ∷ ys) same = ground (arith, same y, eq_iff y y)
filled-members (x ∷ xs) [] same = ground (arith, same x, eq_iff x x)
filled-members (x ∷ xs) (y ∷ ys) same = refl

any-unknown :
    (to_lower : String → String) (xs : List String)
    → any (λ c. is_unknown (to_lower c)) xs ≡ has (map to_lower xs) "unknown"
any-unknown to_lower [] = refl
any-unknown to_lower (x ∷ xs) =
    ground
      (arith, any-unknown to_lower xs, eq_iff (to_lower x) "unknown", eq_iff "unknown" (to_lower x))

map_same : (xs : List String) → map (λ (s : String). s) xs ≡ xs
map_same [] = refl
map_same (x ∷ xs) = ap (◌∷◌ x) (map_same xs)

module _ (texts : Texts) where
  open texts use {to_lower_case}

  given-filled :
      (lower : Bool) (a : Option (List String)) → given a ≡ filled (folded texts lower (values a))
  given-filled true none = refl
  given-filled false none = refl
  given-filled true (some []) = refl
  given-filled false (some []) = refl
  given-filled true (some (x ∷ xs)) = refl
  given-filled false (some (x ∷ xs)) = refl

  given-SameSet :
      (lower : Bool) (a b : Option (List String)) → SameSet texts lower a b → given a ≡ given b
  given-SameSet lower a b same =
      given-filled lower a
      ∙ filled-members (folded texts lower (values a)) (folded texts lower (values b)) same
      ∙ sym (given-filled lower b)

  or_none-SameSet :
      (a b : Option (List String)) (z : String)
      → SameSet texts false a b
      → has (or_none a) z ≡ has (or_none b) z
  or_none-SameSet none none z same = refl
  or_none-SameSet none (some ys) z same = same z
  or_none-SameSet (some xs) none z same = same z
  or_none-SameSet (some xs) (some ys) z same = same z

  lowered-SameSet :
      (a b : Option (List String)) (z : String)
      → SameSet texts true a b
      → has (map to_lower_case (or_none a)) z ≡ has (map to_lower_case (or_none b)) z
  lowered-SameSet none none z same = refl
  lowered-SameSet none (some ys) z same = same z
  lowered-SameSet (some xs) none z same = same z
  lowered-SameSet (some xs) (some ys) z same = same z

  among-SameSet :
      (a b : Option (List String)) (v : Option String)
      → SameSet texts false a b
      → among (or_none a) v ≡ among (or_none b) v
  among-SameSet a b none same = refl
  among-SameSet a b (some z) same = or_none-SameSet a b z same

  any_among-SameSet :
      (a b : Option (List String)) (vs : List String)
      → SameSet texts false a b
      → any_among (or_none a) vs ≡ any_among (or_none b) vs
  any_among-SameSet a b [] same = refl
  any_among-SameSet a b (v ∷ vs) same =
      λ i. or_none-SameSet a b v same i || any_among-SameSet a b vs same i

  module _ (matching : Matching) where
    in_countries-SameSet :
        (a b : Option (List String)) (row : CatalogueRow)
        → SameSet texts true a b
        → in_countries to_lower_case matching a row ≡ in_countries to_lower_case matching b row
    unfolding in_countries
    in_countries-SameSet a b row same = λ i.
        not (given-SameSet true a b same i)
        || (listed (lowered to_lower_case matching row.country) i
            && is_trusted to_lower_case matching row.country_source)
        || (unknown i && unestablished to_lower_case matching row.country row.country_source)
      where
        listed :
            (v : Option String)
            → among
                (map to_lower_case (filter (λ c. not (is_unknown (to_lower_case c))) (or_none a)))
                v
              ≡ among
                  (map to_lower_case (filter (λ c. not (is_unknown (to_lower_case c))) (or_none b)))
                  v
        listed none = refl
        listed (some z) =
            has-filter_unknown to_lower_case (or_none a) z
            ∙ ap (λ h. h && not (is_unknown z)) (lowered-SameSet a b z same)
            ∙ sym (has-filter_unknown to_lower_case (or_none b) z)

        unknown :
            any (λ c. is_unknown (to_lower_case c)) (or_none a)
            ≡ any (λ c. is_unknown (to_lower_case c)) (or_none b)
        unknown =
            any-unknown to_lower_case (or_none a)
            ∙ lowered-SameSet a b "unknown" same
            ∙ sym (any-unknown to_lower_case (or_none b))

    of_types-SameSet :
        (a b : Option (List String)) (row : CatalogueRow)
        → SameSet texts false a b
        → of_types to_lower_case matching a row ≡ of_types to_lower_case matching b row
    unfolding of_types
    of_types-SameSet a b row same = λ i.
        not (given-SameSet false a b same i)
        || (listed row.type i && is_trusted to_lower_case matching row.type_source)
        || (unknown i && unestablished to_lower_case matching row.type row.type_source)
      where
        plain :
            (xs : List String) (z : String)
            → has (filter (λ t. not (is_unknown t)) xs) z ≡ has xs z && not (is_unknown z)
        plain xs z =
            ap (λ ys. has ys z) (sym (map_same (filter (λ t. not (is_unknown t)) xs)))
            ∙ has-filter_unknown (λ (t : String). t) xs z
            ∙ ap (λ ys. has ys z && not (is_unknown z)) (map_same xs)

        listed :
            (v : Option String)
            → among (filter (λ t. not (is_unknown t)) (or_none a)) v
              ≡ among (filter (λ t. not (is_unknown t)) (or_none b)) v
        listed none = refl
        listed (some z) =
            plain (or_none a) z
            ∙ ap (λ h. h && not (is_unknown z)) (or_none-SameSet a b z same)
            ∙ sym (plain (or_none b) z)

        named : (xs : List String) → any is_unknown xs ≡ has xs "unknown"
        named xs = any-unknown (λ (t : String). t) xs ∙ ap (λ ys. has ys "unknown") (map_same xs)

        unknown : any is_unknown (or_none a) ≡ any is_unknown (or_none b)
        unknown = named (or_none a) ∙ or_none-SameSet a b "unknown" same ∙ sym (named (or_none b))

    is_verified-verified :
        (v : Option Bool) (row : CatalogueRow)
        → is_verified to_lower_case matching v row ≡ (
            not (verified v)
            || (is_trusted to_lower_case matching row.type_source
                && is_trusted to_lower_case matching row.country_source))
    unfolding is_verified
    is_verified-verified none row = refl
    is_verified-verified (some true) row = refl
    is_verified-verified (some false) row = refl

    is_verified-same :
        (v w : Option Bool) (row : CatalogueRow)
        → verified v ≡ verified w
        → is_verified to_lower_case matching v row ≡ is_verified to_lower_case matching w row
    is_verified-same v w row same =
        is_verified-verified v row
        ∙ ap
            (λ b.
              not b
              || (is_trusted to_lower_case matching row.type_source
                  && is_trusted to_lower_case matching row.country_source))
            same
        ∙ sym (is_verified-verified w row)

    -- Filters that a key does not tell apart, with the same bounds of the price, select the same rows.
    pub selects-same :
        (a b : Request) (lo hi lo' hi' : Option ℕ) (row : CatalogueRow)
        → SameRequest texts a b
        → lo ≡ lo'
        → hi ≡ hi'
        → selects to_lower_case matching (record a.filter { min_price = lo; max_price = hi }) row
          ≡ selects to_lower_case matching
              (record b.filter { min_price = lo'; max_price = hi' })
              row
    unfolding selects in_regions has_flavor
    selects-same a b lo hi lo' hi' row h e f = λ i.
        row.in_stock
        && (not row.rejected
            && ((not (given-SameSet false a.filter.stores b.filter.stores h.2 i)
                  || or_none-SameSet a.filter.stores b.filter.stores row.store h.2 i)
                && (at_least (e i) (some row.price)
                    && (at_most (f i) (some row.price)
                        && (at_least (h.5 i) row.volume_ml
                            && (at_most (h.6 i) row.volume_ml
                                && (in_countries-SameSet a.filter.countries b.filter.countries row
                                      h.7 i
                                    && (is_named to_lower_case matching (h.8 i) row
                                        && (of_types-SameSet a.filter.types b.filter.types row h.9 i
                                            && ((not (
                                                    given-SameSet false a.filter.flavors
                                                      b.filter.flavors h.10 i)
                                                  || any_among-SameSet a.filter.flavors
                                                      b.filter.flavors row.flavors h.10 i)
                                                && ((not (
                                                        given-SameSet false a.filter.exclude_flavors
                                                          b.filter.exclude_flavors h.11 i)
                                                      || not (
                                                          any_among-SameSet a.filter.exclude_flavors
                                                            b.filter.exclude_flavors row.flavors
                                                            h.11 i))
                                                    && ((not (
                                                            given-SameSet false a.filter.regions
                                                            b.filter.regions h.12 i)
                                                          || among-SameSet a.filter.regions
                                                            b.filter.regions row.region h.12 i)
                                                        && ((not (
                                                            given-SameSet false
                                                            a.filter.exclude_regions
                                                            b.filter.exclude_regions h.13 i)
                                                            || not (
                                                            among-SameSet a.filter.exclude_regions
                                                            b.filter.exclude_regions row.region h.13
                                                            i))
                                                            && is_verified-same
                                                            a.filter.verified_facts
                                                            b.filter.verified_facts row h.14
                                                            i)))))))))))))
