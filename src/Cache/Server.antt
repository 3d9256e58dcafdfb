-- ===== src/Cache/Server.antt =====
-- The commands of the Valkey server that the catalogue cache sends. The server is not part of the
-- repository, so it is a parameter: a state, the commands, and their documented behaviour. An
-- expiry takes no effect at the moment it is set.
use text.Mathlib.Text.{◌==◌ as str_eq}
use text.Mathlib.TextEquality.{eq_iff}
use whisky_scrapper_node.Prelude.{
  ℕ, String, ◌+◌, ◌≡◌, ◌≢◌, refl, ap, ◌∙◌, Option, none, some, List, arith, if◌then◌else◌,
}

-- What `Number` makes of the text of a counter.
pub data Counter : Type 0 where
  number : ℕ → Counter
  not_a_number : Counter

pub record CacheServer : Type 1 where
  pub State : Type 0
  pub get : State → String → Option Counter
  pub set_nx : State → String → ℕ → State
  -- The reply is `none` where it is an error: the text is no integer.
  pub incr : State → String → Option ℕ × State
  pub get_buffer : State → String → Option (List ℕ)
  pub set_ex : State → String → List ℕ → ℕ → State
  pub del : State → String → State
  pub get-set_nx_missing :
      (s : State) (key : String) (n : ℕ)
      → get s key ≡ none
      → get (set_nx s key n) key ≡ some (number n)
  pub get-set_nx_present :
      (s : State) (key : String) (n : ℕ) (c : Counter)
      → get s key ≡ some c
      → get (set_nx s key n) key ≡ some c
  pub incr-number :
      (s : State) (key : String) (n : ℕ)
      → get s key ≡ some (number n)
      → ((incr s key).0 ≡ some (n + 1)) × (get (incr s key).1 key ≡ some (number (n + 1)))
  pub get_buffer-set_ex :
      (s : State) (key : String) (bytes : List ℕ) (ttl : ℕ)
      → get_buffer (set_ex s key bytes ttl) key ≡ some bytes
  pub get-set_ex_ne :
      (s : State) (key key' : String) (bytes : List ℕ) (ttl : ℕ)
      → key ≢ key'
      → get (set_ex s key bytes ttl) key' ≡ get s key'
  pub get_buffer-set_ex_ne :
      (s : State) (key key' : String) (bytes : List ℕ) (ttl : ℕ)
      → key ≢ key'
      → get_buffer (set_ex s key bytes ttl) key' ≡ get_buffer s key'
  pub get_buffer-set_nx_ne :
      (s : State) (key key' : String) (n : ℕ)
      → key ≢ key'
      → get_buffer (set_nx s key n) key' ≡ get_buffer s key'
  pub get_buffer-incr_ne :
      (s : State) (key key' : String)
      → key ≢ key'
      → get_buffer (incr s key).1 key' ≡ get_buffer s key'
  pub get_buffer-del : (s : State) (key : String) → get_buffer (del s key) key ≡ none

-- A server that keeps counters, entries and hashes in functions, to run the service on.
pub record Shelf : Type 0 where
  pub counters : String → Option Counter
  pub entries : String → Option (List ℕ)
  pub hashes : String → String → Option (List ℕ)

abbrev pub put : {A : Type 0} → (String → A) → String → A → String → A
put f key a k = if str_eq key k then a else f k

pub put_self : {A : Type 0} (f : String → A) (key : String) (a : A) → put f key a key ≡ a
put_self f key a = ground (arith, eq_iff key key)

pub put_ne :
    {A : Type 0} (f : String → A) (key key' : String) (a : A)
    → key ≢ key'
    → put f key a key' ≡ f key'
put_ne f key key' a h = ground (arith, eq_iff key key')

abbrev pub seeded : Option Counter → ℕ → Counter
seeded none n = number n
seeded (some c) n = c

abbrev pub stepped : Option Counter → Option ℕ
stepped none = some 1
stepped (some not_a_number) = none
stepped (some (number n)) = some (n + 1)

abbrev pub advanced : (String → Option Counter) → String → Option ℕ → String → Option Counter
advanced counters key none = counters
advanced counters key (some n) = put counters key (some (number n))

abbrev pub incremented : Shelf → String → Option ℕ × Shelf
incremented s key = (
  stepped (s.counters key),
  record s { counters = advanced s.counters key (stepped (s.counters key)) },
)

pub incremented-number :
    (s : Shelf) (key : String) (n : ℕ)
    → s.counters key ≡ some (number n)
    → ((incremented s key).0 ≡ some (n + 1))
      × ((incremented s key).1.counters key ≡ some (number (n + 1)))
incremented-number s key n h = (
  ap stepped h,
  ap (λ o. advanced s.counters key (stepped o) key) h
      ∙ put_self s.counters key (some (number (n + 1))),
)

abbrev pub shelf_server : CacheServer
shelf_server = record {
  State = Shelf;
  get = λ s. s.counters;
  set_nx = λ s key n. record s { counters = put s.counters key (some (seeded (s.counters key) n)) };
  incr = incremented;
  get_buffer = λ s. s.entries;
  set_ex = λ s key bytes ttl. record s { entries = put s.entries key (some bytes) };
  del = λ s key. record s {
    entries = put s.entries key none;
    hashes = put s.hashes key (λ field. none);
  };
  get-set_nx_missing = λ s key n h.
      put_self s.counters key (some (seeded (s.counters key) n)) ∙ ap (λ c. some (seeded c n)) h;
  get-set_nx_present = λ s key n c h.
      put_self s.counters key (some (seeded (s.counters key) n)) ∙ ap (λ c. some (seeded c n)) h;
  incr-number = incremented-number;
  get_buffer-set_ex = λ s key bytes ttl. put_self s.entries key (some bytes);
  get-set_ex_ne = λ s key key' bytes ttl h. refl;
  get_buffer-set_ex_ne = λ s key key' bytes ttl h. put_ne s.entries key key' (some bytes) h;
  get_buffer-set_nx_ne = λ s key key' n h. refl;
  get_buffer-incr_ne = λ s key key' h. refl;
  get_buffer-del = λ s key. put_self s.entries key none;
}
