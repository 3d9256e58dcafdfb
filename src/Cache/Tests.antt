-- ===== src/Cache/Tests.antt =====
-- The catalogue cache on concrete inputs.
use text.Mathlib.Text.{◌==◌ as str_eq}
use text.Mathlib.TextLemmas.{cons≢nil, nil≢cons, tail-eq_of_cons-eq}
use whisky_scrapper_node.Prelude.{
  ℕ, zero, suc, String, ◌+◌, ◌≡◌, ◌≢◌, refl, ap, Option, none, some, true, List, [], ◌∷◌, arith,
  get_elem?, if◌then◌else◌,
}
use whisky_scrapper_node.Hashes.{answered, lost_before}
use whisky_scrapper_node.Cache.Codec.{Runtime, encode}
use whisky_scrapper_node.Cache.Server.{number, Shelf, shelf_server}
use whisky_scrapper_node.Cache.Service.{
  CacheSettings, CacheEntryRef, Surroundings, World, generation_key, entry_key, bump, write, look,
  get_or_compute, miss,
}
use whisky_scrapper_node.Cache.Slow.{SlowCommand}
use whisky_scrapper_node.Cache.Service.Stale.{get_or_compute-again, stale_write}

-- A runtime whose JSON of a number is that many spaces and a digit.
abbrev pub spaces : ℕ → List ℕ
spaces zero = 0x30 ∷ []
spaces (suc n) = 0x20 ∷ spaces n

abbrev pub parse_spaces : List ℕ → Option ℕ
parse_spaces [] = none
parse_spaces (b ∷ []) = some 0
parse_spaces (b ∷ c ∷ rest) = elim (parse_spaces (c ∷ rest)) [ none ↦ none | some n ↦ some (suc n) ]

pub parse_spaces-spaces : (n : ℕ) → parse_spaces (spaces n) ≡ some n
parse_spaces-spaces zero = refl
parse_spaces-spaces (suc zero) = refl
parse_spaces-spaces (suc (suc n)) = rw (parse_spaces-spaces (suc n))

pub spaces_start : (n : ℕ) → get_elem? (spaces n) 0 ≢ some 0x1f
spaces_start zero = ground arith
spaces_start (suc n) = ground arith

abbrev pub zip : List ℕ → List ℕ
zip bytes = 0x1f ∷ 0x8b ∷ 0 ∷ bytes

abbrev pub unzip : List ℕ → Option (List ℕ)
unzip (a ∷ b ∷ c ∷ bytes) = some bytes
unzip bytes = none

abbrev pub toy : Runtime ℕ
toy = record {
  stringify = spaces;
  parse = parse_spaces;
  gzip = zip;
  gunzip = unzip;
  parse-stringify = parse_spaces-spaces;
  gunzip-gzip = λ bytes. refl;
  gzip_header = λ bytes. (0 ∷ bytes, refl, omega arith);
  json_start = spaces_start;
}

-- A number as that many strokes.
abbrev pub strokes : ℕ → String
strokes zero = ""
strokes (suc n) = String.◌∷◌ "1" (strokes n)

pub strokes_injective : (m n : ℕ) → strokes m ≡ strokes n → m ≡ n
strokes_injective zero zero e = refl
strokes_injective zero (suc n) e = absurd (nil≢cons e)
strokes_injective (suc m) zero e = absurd (cons≢nil e)
strokes_injective (suc m) (suc n) e = ap suc (strokes_injective m n (tail-eq_of_cons-eq e))

abbrev pub settings : CacheSettings
settings = record {
  enabled = true;
  boot_bump = true;
  ttl_sec = 60;
  max_entry_bytes = 100;
  max_set_bytes = 1000;
}

abbrev pub sunny : Surroundings
sunny = record {
  decimal = strokes;
  decimal_injective = strokes_injective;
  net = λ n. answered;
  clock = λ n. 5000;
}

abbrev down : Surroundings
down = record sunny { net = λ n. lost_before }

-- A server with a counter at 2 and no entries.
abbrev pub counting : Shelf
counting = record {
  counters = λ key. if str_eq key "cache:gen:catalogue" then some (number 2) else none;
  entries = λ key. none;
  hashes = λ key field. none;
}

abbrev pub started : World shelf_server sunny settings
started = record {
  server_state = counting;
  sent = 0;
  hits = 0;
  misses = 0;
  errors = 0;
  bypasses = 0;
  generation = none;
  last_bump_at = none;
  pending = none;
}

abbrev dirty : World shelf_server down settings
dirty = record {
  server_state = counting;
  sent = 0;
  hits = 0;
  misses = 0;
  errors = 0;
  bypasses = 0;
  generation = none;
  last_bump_at = none;
  pending = some (record { generation = "catalogue"; reason = "boot" });
}

abbrev pub report_ref : CacheEntryRef
report_ref = record { scope = "report"; suffix = "" }

lost≢answered : lost_before ≢ answered
lost≢answered e = cc

apart_2 : generation_key "catalogue" ≢ entry_key shelf_server sunny settings report_ref 2
unfolding entry_key
apart_2 e = cc

apart_3 : generation_key "catalogue" ≢ entry_key shelf_server sunny settings report_ref 3
unfolding entry_key
apart_3 e = cc

get_or_compute-again_example :
    let (first, w') =
      get_or_compute shelf_server sunny settings toy report_ref "catalogue" (some 7) started in
    let (second, w'') =
      get_or_compute shelf_server sunny settings toy report_ref "catalogue" none w' in
    (first ≡ some 7) × (second ≡ some 7) × (w''.hits ≡ w'.hits + 1)
unfolding encode
get_or_compute-again_example =
    get_or_compute-again shelf_server sunny settings toy report_ref "catalogue" started 2 7 none
      (λ n. refl) refl refl refl refl apart_2 (omega arith)

stale_write_example :
    let key = entry_key shelf_server sunny settings report_ref 2 in
    let (looked, w1) = look shelf_server sunny settings toy report_ref "catalogue" started in
    let w2 = bump shelf_server sunny settings "catalogue" "sync" w1 in
    let w3 = write shelf_server sunny settings toy key 7 w2 in
    (looked ≡ miss key)
    × ((get_or_compute shelf_server sunny settings toy report_ref "catalogue" (some 8) w3).0
        ≡ some 8)
stale_write_example =
    stale_write shelf_server sunny settings toy report_ref "catalogue" started 2 "sync" 7 8
      (λ n. refl) refl refl refl refl refl apart_2 apart_3

-- Two slow reads within a window, and a slow write after it.
abbrev slow_commands : List SlowCommand
slow_commands =
    record { operation = "entry read"; elapsed = 60; now = 1000 }
    ∷ record { operation = "entry read"; elapsed = 91; now = 2000 }
    ∷ record { operation = "entry write"; elapsed = 70; now = 70000 }
    ∷ []
