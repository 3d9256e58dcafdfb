-- ===== src/Cache/Pages/Tests.antt =====
-- Pages of a small set.
use whisky_scrapper_node.Prelude.{ℕ, ◌+◌, ◌≡◌, ◌≢◌, ◌⊎◌, refl, none, some, [], ◌∷◌, arith}
use whisky_scrapper_node.Hashes.{lost_after}
use whisky_scrapper_node.Cache.Codec.{encode}
use whisky_scrapper_node.Cache.Server.{shelf_server}
use whisky_scrapper_node.Cache.Hashes.{shelf_hashes}
use whisky_scrapper_node.Cache.Service.{Surroundings, World, generation_key, entry_key}
use whisky_scrapper_node.Cache.Pages.{
  CachePagePick, CacheIndexedSet, hit, miss, pick_in_memory, set_keys, read_page, write_set,
  get_page,
}
use whisky_scrapper_node.Cache.Pages.Reads.{read_page-write_set}
use whisky_scrapper_node.Cache.Pages.Again.{get_page-again, set_keys-apart}
use whisky_scrapper_node.Cache.Tests.{toy, settings, sunny, counting, started, report_ref}

-- Three entries, and a page of the first two in turn.
abbrev small : CacheIndexedSet ℕ ℕ
small = record { index = 7; entries = 1 ∷ 2 ∷ 3 ∷ [] }

abbrev swapped : ℕ → CachePagePick
swapped index = record { positions = 1 ∷ 0 ∷ []; total = index }

abbrev last_one : ℕ → CachePagePick
last_one index = record { positions = 2 ∷ []; total = index }

-- Of every pipeline two commands arrive.
abbrev two : ℕ → ℕ
two n = 2

own_2 :
    generation_key "catalogue"
    ≢ (set_keys (entry_key shelf_server sunny settings report_ref 2)).entries
unfolding set_keys entry_key
own_2 e = cc

own_2' :
    generation_key "catalogue"
    ≢ (set_keys (entry_key shelf_server sunny settings report_ref 2)).index
unfolding set_keys entry_key
own_2' e = cc

get_page-again_example :
    let (first, w') =
      get_page shelf_server shelf_hashes sunny two settings toy toy report_ref "catalogue"
        (some small)
        swapped
        started in
    let (second, w'') =
      get_page shelf_server shelf_hashes sunny two settings toy toy report_ref "catalogue" none
        last_one w' in
    (first ≡ some (pick_in_memory small swapped miss))
    × (second ≡ some (pick_in_memory small last_one hit))
    × (w''.hits ≡ w'.hits + 1)
unfolding encode
get_page-again_example =
    get_page-again shelf_server shelf_hashes sunny two settings toy toy report_ref "catalogue" small
      none swapped last_one started 2 (λ n. refl) refl refl refl refl own_2 own_2' (omega arith)
      (omega arith)

-- A network that loses the replies, after the server had the commands.
abbrev deaf : Surroundings
deaf = record sunny { net = λ n. lost_after }

abbrev unheard : World shelf_server deaf settings
unheard = record {
  server_state = counting;
  sent = 0;
  hits = 0;
  misses = 0;
  errors = 0;
  bypasses = 0;
  generation = none;
  last_bump_at = none;
  pending = none;
}

read_page-write_set_example :
    let w' =
      write_set shelf_server shelf_hashes deaf two settings toy toy (set_keys "k") small unheard in
    let page =
      (read_page shelf_server shelf_hashes deaf two settings toy toy (set_keys "k") swapped w').0 in
    (page ≡ none) ⊎ (page ≡ some (pick_in_memory small swapped hit))
read_page-write_set_example =
    read_page-write_set shelf_server shelf_hashes deaf two settings toy toy (set_keys "k") small
      swapped unheard (set_keys-apart "k") refl (λ field. refl)
