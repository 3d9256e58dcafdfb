-- ===== src/Cache/Pages/Whole.antt =====
-- A set of which the whole pipeline reached the server.
use whisky_scrapper_node.Prelude.{
  ℕ, String, ◌+◌, ◌≤◌, ◌≡◌, ◌≢◌, refl, sym, ap, ◌∙◌, Option, some, List, [], ◌∷◌, ◌++◌, map, length,
  take_all, All, All-append, flatten, get_elem?, arith, Bool, true, false, if◌then◌else◌, ◌==◌, ltb,
}
use whisky_scrapper_node.Hashes.{answered}
use whisky_scrapper_node.Cache.Codec.{Runtime, encode}
use whisky_scrapper_node.Cache.Server.{CacheServer, Counter}
use whisky_scrapper_node.Cache.Hashes.{SetServer, found, or_else}
use whisky_scrapper_node.Cache.Service.{CacheSettings, Surroundings, World}
use whisky_scrapper_node.Cache.Pages.{
  CacheIndexedSet, CacheSetKeys, chunks, hset_chunk, chunk_fields, in_turn, pipeline, set_commands,
  write_set, sum_lengths,
}
use whisky_scrapper_node.Cache.Pages.Fields.{
  found-append, or_else_assoc, found-chunk_fields, or_else-none,
}
use whisky_scrapper_node.Cache.Pages.Stored.{in_turn-take}

pub in_turn-all :
    {S : Type 0} (P : S → Type 0) (changes : List (S → S)) (s : S)
    → All (λ change. (s : S) → P s → P (change s)) changes
    → P s
    → P (in_turn changes s)
in_turn-all P changes s all h =
    rw (take_all (length changes) changes (omega arith)) at
      (in_turn-take P (length changes) changes s all h)

in_turn-append :
    {S : Type 0} (xs ys : List (S → S)) (s : S) → in_turn (xs ++ ys) s ≡ in_turn ys (in_turn xs s)
in_turn-append [] ys s = refl
in_turn-append (x ∷ xs) ys s = in_turn-append xs ys (x s)

module _ (server : CacheServer) (hashes : SetServer server) (key : String) where
  abbrev hsets : List (List (String × List ℕ)) → List (server.State → server.State)
  hsets groups = map (λ fields s. hashes.hset s key fields) groups

  -- After several HSET, a field has the value written last.
  hash-hsets :
      (groups : List (List (String × List ℕ))) (s : server.State) (f : String)
      → hashes.hash (in_turn (hsets groups) s) key f
        ≡ or_else (found f (flatten groups)) (hashes.hash s key f)
  unfolding found
  hash-hsets [] s f = refl
  hash-hsets (g ∷ gs) s f =
      hash-hsets gs (hashes.hset s key g) f
      ∙ ap (or_else (found f (flatten gs))) (hashes.hash-hset s key f g)
      ∙ sym (or_else_assoc (found f (flatten gs)) (found f g) (hashes.hash s key f))
      ∙ ap (λ o. or_else o (hashes.hash s key f)) (sym (found-append f g (flatten gs)))

  -- A lifetime, if one is set, changes no field.
  hash-last :
      (b : Bool) (ttl : ℕ) (s : server.State) (f : String)
      → hashes.hash (in_turn (if b then [] else (λ s. hashes.expire s key ttl) ∷ []) s) key f
        ≡ hashes.hash s key f
  hash-last true ttl s f = refl
  hash-last false ttl s f = hashes.hash-expire s key f ttl

module _ (server : CacheServer) (hashes : SetServer server) (around : Surroundings) (cut : ℕ → ℕ)
    (config : CacheSettings) {I E : Type 0} (ri : Runtime I) (re : Runtime E) (keys : CacheSetKeys)
    (counter : String) (own : counter ≢ keys.entries) (own' : counter ≢ keys.index)
    (apart : keys.index ≢ keys.entries) (set : CacheIndexedSet I E) where
  open around use {decimal, decimal_injective, net}

  -- The index is there, and the counter of the generation has a value.
  abbrev Indexed : Option Counter → server.State → Type 0
  Indexed c s =
      (server.get_buffer s keys.index ≡ some (encode ri set.index)) × (server.get s counter ≡ c)

  abbrev Holds : Option Counter → (server.State → server.State) → Type 0
  Holds c change = (s : server.State) → Indexed c s → Indexed c (change s)

  hsets-Indexed :
      (c : Option Counter) (groups : List (List (String × List ℕ)))
      → All (Holds c) (hsets server hashes keys.entries groups)
  hsets-Indexed c [] = tt
  hsets-Indexed c (g ∷ gs) = (
    λ s h. (
      hashes.get_buffer-hset_ne s keys.entries keys.index g (λ e. apart (sym e)) ∙ h.0,
      hashes.get-hset_ne s keys.entries counter g (λ e. own (sym e)) ∙ h.1,
    ),
    hsets-Indexed c gs,
  )

  last-Indexed :
      (c : Option Counter) (b : Bool)
      → All (Holds c) (if b then [] else (λ s. hashes.expire s keys.entries config.ttl_sec) ∷ [])
  last-Indexed c true = tt
  last-Indexed c false = (
    λ s h. (
      hashes.get_buffer-expire_ne s keys.entries keys.index config.ttl_sec (λ e. apart (sym e))
          ∙ h.0,
      hashes.get-expire_ne s keys.entries counter config.ttl_sec (λ e. own (sym e)) ∙ h.1,
    ),
    tt,
  )

  abbrev texts : List (List ℕ)
  texts = map re.stringify set.entries

  abbrev commands : List (server.State → server.State)
  commands = set_commands server hashes around cut config ri re keys (encode ri set.index) texts

  abbrev groups : List (List (String × List ℕ))
  groups = chunk_fields decimal hset_chunk 0 (chunks texts hset_chunk)

  abbrev last : List (server.State → server.State)
  last = if length texts == 0 then [] else (λ s. hashes.expire s keys.entries config.ttl_sec) ∷ []

  commands-Indexed :
      (c : Option Counter) (s : server.State)
      → server.get s counter ≡ c
      → Indexed c (in_turn commands s)
  unfolding set_commands
  commands-Indexed c s h =
      in_turn-all (Indexed c) (hsets server hashes keys.entries groups ++ last)
        (server.del (server.set_ex s keys.index (encode ri set.index) config.ttl_sec) keys.entries)
        (All-append (Holds c) (hsets server hashes keys.entries groups) last
          (hsets-Indexed c groups) (last-Indexed c (length texts == 0)))
        (
          hashes.get_buffer-del_ne _ keys.entries keys.index (λ e. apart (sym e))
              ∙ server.get_buffer-set_ex s keys.index (encode ri set.index) config.ttl_sec,
          hashes.get-del_ne _ keys.entries counter (λ e. own (sym e))
              ∙ server.get-set_ex_ne s keys.index counter (encode ri set.index) config.ttl_sec
                  (λ e. own' (sym e))
              ∙ h,
        )

  -- Every position has its item.
  commands-hash :
      (s : server.State) (p : ℕ)
      → hashes.hash (in_turn commands s) keys.entries (decimal p) ≡ get_elem? texts p
  unfolding set_commands
  commands-hash s p =
      let s1 =
        server.del (server.set_ex s keys.index (encode ri set.index) config.ttl_sec) keys.entries in
      ap (λ s'. hashes.hash s' keys.entries (decimal p))
        (in_turn-append (hsets server hashes keys.entries groups) last s1)
      ∙ hash-last server hashes keys.entries (length texts == 0) config.ttl_sec
          (in_turn (hsets server hashes keys.entries groups) s1) (decimal p)
      ∙ hash-hsets server hashes keys.entries groups s1 (decimal p)
      ∙ ap (or_else (found (decimal p) (flatten groups)))
          (hashes.hash-del _ keys.entries (decimal p))
      ∙ or_else-none (found (decimal p) (flatten groups))
      ∙ found-chunk_fields decimal decimal_injective p hset_chunk texts (omega arith)

  -- Where every command is answered and the set is within its cap, it is stored whole, and the
  -- counter is left alone.
  pub write_set-whole :
      (w : World server around config) (c : Option Counter)
      → net w.sent ≡ answered
      → length (encode ri set.index) + sum_lengths texts ≤ config.max_set_bytes
      → server.get w.server_state counter ≡ c
      → let w' = write_set server hashes around cut config ri re keys set w in
        Indexed c w'.server_state
        × ((p : ℕ) → hashes.hash w'.server_state keys.entries (decimal p) ≡ get_elem? texts p)
        × (w'.pending ≡ w.pending)
        × (w'.hits ≡ w.hits)
  unfolding write_set pipeline
  write_set-whole w c on fits h =
      let below : ltb config.max_set_bytes (length (encode ri set.index) + sum_lengths texts)
          ≡ false =
        ground (arith, fits) in
      rw (below, write_set)
        (rw (on, pipeline)
          (commands-Indexed c w.server_state h, commands-hash w.server_state, refl, refl))
