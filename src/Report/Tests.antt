-- ===== src/Report/Tests.antt =====
-- Reports on concrete inputs.
use Prim.Native.Nat.{compare}
use Prim.Native.String
use whisky_scrapper_node.Prelude.{
  ℕ, String, ◌≡◌, Option, none, some, false, List, [], ◌∷◌, length, take, drop, arith, flip,
}
use whisky_scrapper_node.Report.Page.{
  price, asc, number, PageGroup, Collation, build_index, PreferenceFilterIds, PageOptions, select,
}
use whisky_scrapper_node.Report.Page.Choice.{visible, select_lem}

pub len-flip :
    (a b : String)
    → compare (String.len b) (String.len a) ≡ flip (compare (String.len a) (String.len b))
len-flip a b = ground arith

-- Shorter texts first.
abbrev pub by_length : Collation
by_length = record {
  locale_compare = λ a b. compare (String.len a) (String.len b);
  to_lower_case = λ s. s;
  written = λ n. "n";
  locale_compare-flip = len-flip;
}

abbrev priced : String → Option ℕ → PageGroup
priced id none = record {
  id = id;
  product_id = id;
  producer_id = some "m";
  bottler_id = none;
  value = λ field. none;
}
priced id (some n) = record {
  id = id;
  product_id = id;
  producer_id = none;
  bottler_id = none;
  value = λ field. some (number n);
}

abbrev groups : List PageGroup
groups =
    priced "a" (some 30) ∷ priced "bb" none ∷ priced "ccc" (some 20) ∷ priced "dddd" (some 40) ∷ []

abbrev preferences : PreferenceFilterIds
preferences = record { favorites = []; blacklist_products = "a" ∷ []; blacklist_producers = [] }

abbrev second_page : PageOptions
second_page = record { sort_field = some price; order = asc; page = 2; per_page = 2 }

select_lem_example : select (build_index by_length groups) preferences false second_page ≡ record {
  positions =
      take 2 (drop 2 (visible (build_index by_length groups) preferences false second_page));
  total = length (visible (build_index by_length groups) preferences false second_page);
}
select_lem_example =
    select_lem (build_index by_length groups) preferences false second_page (omega arith)
