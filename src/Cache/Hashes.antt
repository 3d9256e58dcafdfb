-- ===== src/Cache/Hashes.antt =====
-- The commands on hashes that the catalogue cache sends to the Valkey server, a parameter with their
-- documented behaviour. The value of a field is the bytes of its text.
use text.Mathlib.Text.{◌==◌ as str_eq}
use whisky_scrapper_node.Prelude.{
  ℕ, String, ◌≡◌, ◌≢◌, refl, Option, none, some, List, [], ◌∷◌, map, if◌then◌else◌,
}
use whisky_scrapper_node.Cache.Server.{CacheServer, Shelf, shelf_server, put, put_self, put_ne}

abbrev pub or_else {ℓ} : {A : Type ℓ} → Option A → Option A → Option A
or_else (some x) other = some x
or_else none other = other

-- The value of a field in a list of fields and values, in which a later one counts.
unfoldable pub found {ℓ} : {A : Type ℓ} → String → List (String × A) → Option A
found field [] = none
found field ((name, value) ∷ rest) =
    or_else (found field rest) (if str_eq name field then some value else none)

pub record SetServer (server : CacheServer) : Type 0 where
  pub hash : server.State → String → String → Option (List ℕ)
  pub hmget : server.State → String → List String → List (Option (List ℕ))
  pub hset : server.State → String → List (String × List ℕ) → server.State
  pub expire : server.State → String → ℕ → server.State
  -- HMGET answers one value for each field, in their order.
  pub hmget-hash :
      (s : server.State) (key : String) (fields : List String)
      → hmget s key fields ≡ map (hash s key) fields
  pub hash-hset :
      (s : server.State) (key field : String) (pairs : List (String × List ℕ))
      → hash (hset s key pairs) key field ≡ or_else (found field pairs) (hash s key field)
  pub hash-del : (s : server.State) (key field : String) → hash (server.del s key) key field ≡ none
  -- A lifetime takes no effect at the moment it is set.
  pub hash-expire :
      (s : server.State) (key field : String) (ttl : ℕ)
      → hash (expire s key ttl) key field ≡ hash s key field
  -- A command leaves other keys alone.
  pub hash-set_ex_ne :
      (s : server.State) (key key' field : String) (bytes : List ℕ) (ttl : ℕ)
      → key ≢ key'
      → hash (server.set_ex s key bytes ttl) key' field ≡ hash s key' field
  pub get_buffer-hset_ne :
      (s : server.State) (key key' : String) (pairs : List (String × List ℕ))
      → key ≢ key'
      → server.get_buffer (hset s key pairs) key' ≡ server.get_buffer s key'
  pub get_buffer-expire_ne :
      (s : server.State) (key key' : String) (ttl : ℕ)
      → key ≢ key'
      → server.get_buffer (expire s key ttl) key' ≡ server.get_buffer s key'
  pub get_buffer-del_ne :
      (s : server.State) (key key' : String)
      → key ≢ key'
      → server.get_buffer (server.del s key) key' ≡ server.get_buffer s key'
  pub get-hset_ne :
      (s : server.State) (key key' : String) (pairs : List (String × List ℕ))
      → key ≢ key'
      → server.get (hset s key pairs) key' ≡ server.get s key'
  pub get-expire_ne :
      (s : server.State) (key key' : String) (ttl : ℕ)
      → key ≢ key'
      → server.get (expire s key ttl) key' ≡ server.get s key'
  pub get-del_ne :
      (s : server.State) (key key' : String)
      → key ≢ key'
      → server.get (server.del s key) key' ≡ server.get s key'

abbrev pub hset_shelf : Shelf → String → List (String × List ℕ) → Shelf
hset_shelf s key pairs = record s {
  hashes = put s.hashes key (λ field. or_else (found field pairs) (s.hashes key field));
}

pub hash-hset_shelf :
    (s : Shelf) (key field : String) (pairs : List (String × List ℕ))
    → (hset_shelf s key pairs).hashes key field ≡ or_else (found field pairs) (s.hashes key field)
hash-hset_shelf s key field pairs =
    λ i. put_self s.hashes key (λ f. or_else (found f pairs) (s.hashes key f)) i field

abbrev pub shelf_hashes : SetServer shelf_server
shelf_hashes = record {
  hash = λ s. s.hashes;
  hmget = λ s key fields. map (s.hashes key) fields;
  hset = hset_shelf;
  expire = λ s key ttl. s;
  hmget-hash = λ s key fields. refl;
  hash-hset = hash-hset_shelf;
  hash-del = λ s key field. (λ i. put_self s.hashes key (λ f. none) i field);
  hash-expire = λ s key field ttl. refl;
  hash-set_ex_ne = λ s key key' field bytes ttl h. refl;
  get_buffer-hset_ne = λ s key key' pairs h. refl;
  get_buffer-expire_ne = λ s key key' ttl h. refl;
  get_buffer-del_ne = λ s key key' h. put_ne s.entries key key' none h;
  get-hset_ne = λ s key key' pairs h. refl;
  get-expire_ne = λ s key key' ttl h. refl;
  get-del_ne = λ s key key' h. refl;
}
