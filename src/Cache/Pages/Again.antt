-- ===== src/Cache/Pages/Again.antt =====
-- A page that is built, stored and read again.
use text.Mathlib.TextEquality.{eq_iff}
use text.Mathlib.TextLemmas.{append_cancel_left}
use whisky_scrapper_node.Prelude.{
  ℕ, zero, suc, String, ◌+◌, ◌≤◌, ◌<◌, ◌≡◌, ◌≢◌, refl, sym, ap, ◌∙◌, Option, none, some, List, [],
  ◌∷◌, map, length, All, get_elem?, arith, true,
}
use whisky_scrapper_node.Hashes.{answered}
use whisky_scrapper_node.Cache.Codec.{Runtime, encode, decode-encode}
use whisky_scrapper_node.Cache.Server.{CacheServer, number}
use whisky_scrapper_node.Cache.Hashes.{SetServer}
use whisky_scrapper_node.Cache.Service.{
  CacheSettings, CacheEntryRef, Surroundings, World, command, query, read, generation_key,
  entry_key, usable_generation, read_generation, remember, count_miss,
}
use whisky_scrapper_node.Cache.Pages.{
  CachePagePick, CacheIndexedSet, CacheSetKeys, hit, miss, pick_in_memory, set_keys, entries,
  all_some, read_entries, read_page, write_set, get_page, sum_lengths,
}
use whisky_scrapper_node.Cache.Pages.Stored.{picked-items, all_some-parse}
use whisky_scrapper_node.Cache.Pages.Reads.{hmget-field}
use whisky_scrapper_node.Cache.Pages.Whole.{write_set-whole}

-- The two keys of a set are apart.
pub set_keys-apart : (base : String) → (set_keys base).index ≢ (set_keys base).entries
unfolding set_keys
set_keys-apart base e = cc ((eq_iff ":idx" ":grp").1 (append_cancel_left base ":idx" ":grp" e))

length-map : {A B : Type 0} (f : A → B) (xs : List A) → length (map f xs) ≡ length xs
length-map f [] = refl
length-map f (x ∷ xs) = ap suc (length-map f xs)

get_elem?-map :
    {A B : Type 0} (f : A → B) (xs : List A) (p : ℕ)
    → p < length xs
    → (b : B) × (get_elem? (map f xs) p ≡ some b)
get_elem?-map f [] p h = absurd (omega (arith, h))
get_elem?-map f (x ∷ xs) zero h = (f x, refl)
get_elem?-map f (x ∷ xs) (suc p) h = get_elem?-map f xs p (omega (arith, h))

texts_there :
    {E : Type 0} (re : Runtime E) (stored : List E) (field : ℕ → Option (List ℕ))
    → ((p : ℕ) → field p ≡ get_elem? (map re.stringify stored) p)
    → (positions : List ℕ) → All (λ p. p < length stored) positions
    → (texts : List (List ℕ)) × (all_some (map field positions) ≡ some texts)
texts_there re stored field whole [] h = ([], refl)
texts_there re stored field whole (p ∷ ps) h =
    let (t, there) = get_elem?-map re.stringify stored p h.0 in
    let (ts, rest) = texts_there re stored field whole ps h.1 in
    (t ∷ ts, rw (whole p, there, rest) refl)

module _ (server : CacheServer) (hashes : SetServer server) (around : Surroundings) (cut : ℕ → ℕ)
    (config : CacheSettings) where
  open around use {decimal, net}

  -- With the cache enabled and idle, the generation is the counter's.
  usable-number :
      (generation : String) (w : World server around config) (v : ℕ)
      → net w.sent ≡ answered
      → config.enabled ≡ true
      → w.pending ≡ none
      → server.get w.server_state (generation_key generation) ≡ some (number v)
      → usable_generation server around config generation w
        ≡ (some v, record w { sent = w.sent + 1; generation = some v })
  unfolding usable_generation read_generation query command remember
  usable-number generation w v on enabled idle counter = ground (arith, on, enabled, idle, counter)

  module _ {I E : Type 0} (ri : Runtime I) (re : Runtime E) where
    read_entries-whole :
        (stored : List E) (key : String) (positions : List ℕ) (w : World server around config)
        → net w.sent ≡ answered
        → ((p : ℕ)
            → hashes.hash w.server_state key (decimal p) ≡ get_elem? (map re.stringify stored) p)
        → All (λ p. p < length stored) positions
        → (es : List E) × ((read_entries server hashes around cut config ri re key positions w).0
            ≡ entries es)
          × (map some es ≡ map (get_elem? stored) positions)
          × ((read_entries server hashes around cut config ri re key positions w).1.hits ≡ w.hits)
    unfolding read_entries command
    read_entries-whole stored key [] w on whole h = ([], refl, refl, refl)
    read_entries-whole stored key (p ∷ ps) w on whole h =
        let field : ℕ → Option (List ℕ) = λ q. hashes.hash w.server_state key (decimal q) in
        let raw = hashes.hmget w.server_state key (map decimal (p ∷ ps)) in
        let (texts, e) = texts_there re stored field whole (p ∷ ps) h in
        let k : all_some raw ≡ some texts =
          ap all_some
            (hmget-field server hashes around cut config ri re w.server_state key (p ∷ ps))
          ∙ e in
        let (xs, same, picked) =
          picked-items re stored field (p ∷ ps) texts (λ q t there. sym (whole q) ∙ there) e in
        let parsed : all_some (map re.parse texts) ≡ some xs =
          ap (λ ts. all_some (map re.parse ts)) same ∙ all_some-parse re stored field xs in
        let many : length raw ≡ length (p ∷ ps) =
          ap length (hmget-field server hashes around cut config ri re w.server_state key (p ∷ ps))
          ∙ length-map field (p ∷ ps) in
        (xs, ground (arith, on, k, parsed, many), picked, ground (arith, on, k, parsed, many))

    read-there :
        (key : String) (w : World server around config) (value : I)
        → net w.sent ≡ answered
        → server.get_buffer w.server_state key ≡ some (encode ri value)
        → read server around config ri key w ≡ (some value, record w { sent = w.sent + 1 })
    unfolding read query command
    read-there key w value on there = ground (arith, on, there, decode-encode ri value)

    read_page-absent :
        (keys : CacheSetKeys) (pick : I → CachePagePick) (w : World server around config)
        → net w.sent ≡ answered
        → server.get_buffer w.server_state keys.index ≡ none
        → read_page server hashes around cut config ri re keys pick w
          ≡ (none, record w { sent = w.sent + 1 })
    unfolding read_page read query command
    read_page-absent keys pick w on absent = ground (arith, on, absent)

    read_page-whole :
        (keys : CacheSetKeys) (set : CacheIndexedSet I E) (pick : I → CachePagePick)
        (w : World server around config)
        → ((n : ℕ) → net n ≡ answered)
        → server.get_buffer w.server_state keys.index ≡ some (encode ri set.index)
        → ((p : ℕ)
            → hashes.hash w.server_state keys.entries (decimal p)
              ≡ get_elem? (map re.stringify set.entries) p)
        → All (λ p. p < length set.entries) (pick set.index).positions
        → let (page, w') = read_page server hashes around cut config ri re keys pick w in
          (page ≡ some (pick_in_memory set pick hit)) × (w'.hits ≡ w.hits)
    unfolding read_page pick_in_memory
    read_page-whole keys set pick w on index whole inside =
        let w1 : World server around config = record w { sent = w.sent + 1 } in
        let (es, found, items, counted) =
          read_entries-whole set.entries keys.entries (pick set.index).positions w1 (on _) whole
            inside in
        let e = read-there keys.index w set.index (on _) index in
        rw (e, ap (λ x. x.1) e, read_page)
          (rw (found, read_page) (rw items refl, rw (ap (λ x. x.1) e) counted))

    -- A stored set is read: a hit, with the page of the set.
    get_page-whole :
        (ref : CacheEntryRef) (generation : String) (set : CacheIndexedSet I E)
        (other : Option (CacheIndexedSet I E)) (pick : I → CachePagePick)
        (w : World server around config) (v : ℕ)
        → ((n : ℕ) → net n ≡ answered)
        → config.enabled ≡ true
        → w.pending ≡ none
        → server.get w.server_state (generation_key generation) ≡ some (number v)
        → let keys = set_keys (entry_key server around config ref v) in
          server.get_buffer w.server_state keys.index ≡ some (encode ri set.index)
          → ((p : ℕ)
              → hashes.hash w.server_state keys.entries (decimal p)
                ≡ get_elem? (map re.stringify set.entries) p)
          → All (λ p. p < length set.entries) (pick set.index).positions
          → let (page, w') =
              get_page server hashes around cut config ri re ref generation other pick w in
            (page ≡ some (pick_in_memory set pick hit)) × (w'.hits ≡ w.hits + 1)
    unfolding get_page
    get_page-whole ref generation set other pick w v on enabled idle counter index whole inside =
        let keys = set_keys (entry_key server around config ref v) in
        let w1 : World server around config = record w { sent = w.sent + 1; generation = some v } in
        let (page, counted) = read_page-whole keys set pick w1 on index whole inside in
        let e = usable-number generation w v (on _) enabled idle counter in
        rw (e, ap (λ x. x.1) e, get_page)
          (rw (page, get_page) (refl, rw (ap (λ x. x.1) e) (rw counted refl)))

    -- A set is built where none is stored: a miss, with the page of the set, which is written.
    get_page-absent :
        (ref : CacheEntryRef) (generation : String) (set : CacheIndexedSet I E)
        (pick : I → CachePagePick) (w : World server around config) (v : ℕ)
        → ((n : ℕ) → net n ≡ answered)
        → config.enabled ≡ true
        → w.pending ≡ none
        → server.get w.server_state (generation_key generation) ≡ some (number v)
        → let keys = set_keys (entry_key server around config ref v) in
          server.get_buffer w.server_state keys.index ≡ none
          → get_page server hashes around cut config ri re ref generation (some set) pick w ≡ (
            some (pick_in_memory set pick miss),
            write_set server hashes around cut config ri re keys set (
                count_miss server around config
                  (record w { sent = w.sent + 1 + 1; generation = some v })),
          )
    unfolding get_page
    get_page-absent ref generation set pick w v on enabled idle counter absent =
        let keys = set_keys (entry_key server around config ref v) in
        let w1 : World server around config = record w { sent = w.sent + 1; generation = some v } in
        let e = usable-number generation w v (on _) enabled idle counter in
        rw (e, ap (λ x. x.1) e, get_page)
          (let k = read_page-absent keys pick w1 (on _) absent in
            rw (k, get_page) (rw (ap (λ x. x.1) e) (rw (ap (λ x. x.1) k) refl)))

    -- With the cache enabled, a server that answers, no bump outstanding and a counter that is a
    -- number under a key of its own: a page of a set of which no index is stored is the page of the
    -- set that its loader builds. If that set fits the cap, any page of it that is asked for next,
    -- with positions inside the set, is a hit, with the entries and the total that a selection from
    -- the set in memory has, whatever its own loader would build.
    pub get_page-again :
        (ref : CacheEntryRef) (generation : String) (set : CacheIndexedSet I E)
        (other : Option (CacheIndexedSet I E)) (pick next : I → CachePagePick)
        (w : World server around config) (v : ℕ)
        → ((n : ℕ) → net n ≡ answered)
        → config.enabled ≡ true
        → w.pending ≡ none
        → server.get w.server_state (generation_key generation) ≡ some (number v)
        → let keys = set_keys (entry_key server around config ref v) in
          server.get_buffer w.server_state keys.index ≡ none
          → generation_key generation ≢ keys.entries
          → generation_key generation ≢ keys.index
          → length (encode ri set.index) + sum_lengths (map re.stringify set.entries)
            ≤ config.max_set_bytes
          → All (λ p. p < length set.entries) (next set.index).positions
          → let (first, w') =
              get_page server hashes around cut config ri re ref generation (some set) pick w in
            let (second, w'') =
              get_page server hashes around cut config ri re ref generation other next w' in
            (first ≡ some (pick_in_memory set pick miss))
            × (second ≡ some (pick_in_memory set next hit))
            × (w''.hits ≡ w'.hits + 1)
    get_page-again ref generation set other pick next w v on enabled idle counter absent own own'
          fits inside =
        let keys = set_keys (entry_key server around config ref v) in
        let w1 =
          count_miss server around config
            (record w { sent = w.sent + 1 + 1; generation = some v }) in
        let w2 = write_set server hashes around cut config ri re keys set w1 in
        let ((index, kept), whole, quiet, _) =
          write_set-whole server hashes around cut config ri re keys (generation_key generation) own
            own' (set_keys-apart (entry_key server around config ref v)) set w1 _ (on _) fits
            counter in
        let (second, counted) =
          get_page-whole ref generation set other next w2 v on enabled (quiet ∙ idle) kept index
            whole inside in
        rw (get_page-absent ref generation set pick w v on enabled idle counter absent)
          (refl, second, counted)
