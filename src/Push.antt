-- ===== src/Push.antt =====
-- The digest of a push (utils/push-digest.util.ts). How the runtime compares texts in the reader's
-- language, writes a number and measures the JSON of a payload is a parameter.
pub mod Best
pub mod Payload
mod Tests
use Prim.Native.Nat.{compare, Ordering}
use Prim.Native.String
use whisky_scrapper_node.Prelude.{
  ℕ, zero, suc, String, ◌+◌, ◌-◌, ◌≡◌, Option, none, some, Bool, true, false, ◌==◌, List, [], ◌∷◌,
  ◌++◌, map, if◌then◌else◌, ltb, length, take, min, sort, flip, or_then, group_by, each_group,
  distinct,
}

pub record PushDropRow : Type 0 where
  pub user_id : String
  pub product_id : String
  pub store_product_id : String
  pub name : Option String
  pub name_orig : String
  pub age : Option ℕ
  pub store_name : String
  pub price : ℕ
  pub previous_price : ℕ
  pub currency : String
  pub discount_pct : ℕ

pub record PushDigestItem : Type 0 where
  pub product_id : String
  pub name : String
  pub discount_pct : ℕ
  pub store_count : ℕ
  pub price : ℕ
  pub previous_price : ℕ
  pub currency : String
  pub store_name : String

pub record PushDigestPayload : Type 0 where
  pub title : String
  pub body : String
  pub url : String
  pub count : ℕ

pub record Runtime : Type 0 where
  pub locale_compare : String → String → Ordering
  pub decimal : ℕ → String
  -- `Buffer.byteLength(JSON.stringify(payload))`
  pub bytes : PushDigestPayload → ℕ
  pub locale_compare-flip : (a b : String) → locale_compare b a ≡ flip (locale_compare a b)

infixr 66 ◌++ₛ◌
abbrev pub ◌++ₛ◌ : String → String → String
s ++ₛ t = String.◌++◌ s t

-- PUSH_DIGEST_MAX_ITEMS and PUSH_PAYLOAD_MAX_BYTES
abbrev pub max_items : ℕ
max_items = 5

abbrev pub payload_max_bytes : ℕ
payload_max_bytes = 3500

unfoldable pub by_user : List PushDropRow → List (String × List PushDropRow)
by_user rows = group_by (λ row. row.user_id) rows

-- The `reduce`: the first of the offers with the largest discount.
unfoldable pub best_of : PushDropRow → List PushDropRow → PushDropRow
best_of top [] = top
best_of top (offer ∷ offers) =
    best_of (if ltb top.discount_pct offer.discount_pct then offer else top) offers

-- `lines.join(', ')`
abbrev pub joined : List String → String
joined [] = ""
joined (line ∷ []) = line
joined (line ∷ next ∷ lines) = line ++ₛ ", " ++ₛ joined (next ∷ lines)

-- Where a click leads.
unfoldable pub url_of : List PushDigestItem → String
url_of (item ∷ []) = "/product/" ++ₛ item.product_id
url_of [] = "/drops?favoritesOnly=true"
url_of (item ∷ other ∷ items) = "/drops?favoritesOnly=true"

module _ (runtime : Runtime) where
  open runtime use {locale_compare, decimal, bytes}

  unfoldable pub display_name : PushDropRow → String
  display_name row = elim row.name [
    | none ↦ row.name_orig
    | some name ↦ elim row.age [ none ↦ name | some age ↦ name ++ₛ " " ++ₛ decimal age ++ₛ "yo" ]
  ]

  -- The line of one bottling; there is none without an offer.
  unfoldable pub digest_of : List PushDropRow → List PushDigestItem
  digest_of [] = []
  digest_of (first ∷ rest) =
      let best = best_of first rest in
      record {
        product_id = best.product_id;
        name = display_name best;
        discount_pct = best.discount_pct;
        store_count = length (distinct (map (λ offer. offer.store_name) (first ∷ rest)));
        price = best.price;
        previous_price = best.previous_price;
        currency = best.currency;
        store_name = best.store_name;
      }
      ∷ []

  unfoldable pub items_of : List PushDropRow → List PushDigestItem
  items_of rows = each_group digest_of (group_by (λ row. row.product_id) rows)

  abbrev pub by_discount : PushDigestItem → PushDigestItem → Ordering
  by_discount a b = or_then (compare b.discount_pct a.discount_pct) (locale_compare a.name b.name)

  unfoldable pub best_per_product : List PushDropRow → List PushDigestItem
  best_per_product rows = sort by_discount (items_of rows)

  unfoldable pub render : List PushDigestItem → ℕ → String → PushDigestPayload
  render items shown url =
      let lines =
        map (λ item. item.name ++ₛ " −" ++ₛ decimal item.discount_pct ++ₛ "%") (take shown items) in
      let rest = length items - shown in
      record {
        title =
            if length items == 1
            then "Знижка на віскі з обраного"
            else "Знижки на " ++ₛ decimal (length items) ++ₛ " віскі з обраного";
        body = joined (if ltb 0 rest then lines ++ ("та ще " ++ₛ decimal rest) ∷ [] else lines);
        url = url;
        count = length items;
      }

  -- The loop of `payload`, from how many items are shown.
  unfoldable pub shrink : List PushDigestItem → String → ℕ → PushDigestPayload
  shrink items url zero = render items 0 url
  shrink items url (suc zero) = render items 1 url
  shrink items url (suc (suc n)) =
      let rendered = render items (suc (suc n)) url in
      let smaller = shrink items url (suc n) in
      if ltb payload_max_bytes (bytes rendered) then smaller else rendered

  unfoldable pub payload : List PushDigestItem → PushDigestPayload
  payload items = shrink items (url_of items) (min (length items) max_items)
