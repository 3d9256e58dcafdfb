-- ===== src/Push/Tests.antt =====
-- Digests on concrete inputs.
use Prim.Native.Nat.{compare}
use Prim.Native.String
use mathlib.Core.List.{Perm}
use whisky_scrapper_node.Prelude.{
  ℕ, String, ◌*◌, ◌≡◌, none, List, [], ◌∷◌, All, Ascends, filter, of_key, compare-flip, flip,
  length, min,
}
use whisky_scrapper_node.Push.{
  PushDropRow, Runtime, max_items, best_per_product, items_of, digest_of, by_discount, url_of,
  payload,
}
use whisky_scrapper_node.Push.Best.{product_of, is_of, States, best_per_product_lem}
use whisky_scrapper_node.Push.Payload.{Fits, payload_lem}

len-flip :
    (a b : String)
    → compare (String.len b) (String.len a) ≡ flip (compare (String.len a) (String.len b))
len-flip a b = compare-flip (String.len a) (String.len b)

-- A runtime whose payloads are a thousand times as long as their bodies.
abbrev runtime : Runtime
runtime = record {
  locale_compare = λ a b. compare (String.len a) (String.len b);
  decimal = λ n. "1";
  bytes = λ p. 1000 * String.len p.body;
  locale_compare-flip = len-flip;
}

abbrev drop_of : String → String → ℕ → PushDropRow
drop_of product store discount = record {
  user_id = "u";
  product_id = product;
  store_product_id = store;
  name = none;
  name_orig = product;
  age = none;
  store_name = store;
  price = 80;
  previous_price = 100;
  currency = "UAH";
  discount_pct = discount;
}

-- Two stores drop one bottling, and one of them another.
abbrev drops : List PushDropRow
drops = drop_of "p" "a" 10 ∷ drop_of "q" "a" 15 ∷ drop_of "p" "b" 20 ∷ []

best_per_product_lem_example :
    Perm (best_per_product runtime drops) (items_of runtime drops)
    × Ascends (by_discount runtime) (best_per_product runtime drops)
    × (filter (is_of "p") (items_of runtime drops)
        ≡ digest_of runtime (filter (of_key product_of "p") drops))
    × All
        (States (filter (of_key product_of "p") drops))
        (digest_of runtime (filter (of_key product_of "p") drops))
best_per_product_lem_example = best_per_product_lem runtime drops "p"

payload_lem_example :
    Fits runtime
      (items_of runtime drops)
      (url_of (items_of runtime drops))
      (min (length (items_of runtime drops)) max_items)
      (payload runtime (items_of runtime drops))
payload_lem_example = payload_lem runtime (items_of runtime drops)
