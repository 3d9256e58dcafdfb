-- ===== src/Cache/Pages/Reads.antt =====
-- The page that is read from a stored set.
use whisky_scrapper_node.Prelude.{
  ℕ, String, ◌≡◌, ◌≢◌, ◌⊎◌, inl, inr, refl, sym, ap, ◌∙◌, Option, none, some, List, [], ◌∷◌, map,
  get_elem?, arith, Option-cases,
}
use whisky_scrapper_node.Cache.Codec.{Runtime, encode, decode, decode-encode}
use whisky_scrapper_node.Cache.Server.{CacheServer}
use whisky_scrapper_node.Cache.Hashes.{SetServer}
use whisky_scrapper_node.Cache.Service.{CacheSettings, Surroundings, World, command, query, read}
use whisky_scrapper_node.Cache.Pages.{
  CachePagePick, CacheIndexedSet, hit, pick_in_memory, CacheSetKeys, EntriesRead, entries, partial,
  failed, all_some, read_entries, read_page, write_set,
}
use whisky_scrapper_node.Cache.Pages.Stored.{
  Sound, Partly, picked-items, all_some-parse, write_set-Partly,
}

module _ (server : CacheServer) (around : Surroundings) (config : CacheSettings) where
  -- What is read was stored, and reading it left the server alone.
  pub read-some :
      {V : Type 0} (r : Runtime V) (key : String) (w : World server around config) (v : V)
      → (read server around config r key w).0 ≡ some v
      → ((bytes : List ℕ) × (server.get_buffer w.server_state key ≡ some bytes)
          × (decode r bytes ≡ some v))
        × ((read server around config r key w).1.server_state ≡ w.server_state)
  unfolding read query command
  read-some r key w v h = elim (Option-cases (server.get_buffer w.server_state key)) [
    | inl e ↦ absurd (ground (arith, h, e))
    | inr (bytes, e) ↦ elim (Option-cases (decode r bytes)) [
      | inl k ↦ absurd (ground (arith, h, e, k))
      | inr (x, k) ↦ ((bytes, e, k ∙ ground (arith, h, e, k)), ground (arith, h, e, k))
    ]
  ]

map-map :
    {A B C : Type 0} (f : B → C) (g : A → B) (xs : List A)
    → map f (map g xs) ≡ map (λ x. f (g x)) xs
map-map f g [] = refl
map-map f g (x ∷ xs) = ap (λ ys. f (g x) ∷ ys) (map-map f g xs)

module _ (server : CacheServer) (hashes : SetServer server) (around : Surroundings) (cut : ℕ → ℕ)
    (config : CacheSettings) {I E : Type 0} (ri : Runtime I) (re : Runtime E) where
  open around use {decimal}

  pub hmget-field :
      (s : server.State) (key : String) (positions : List ℕ)
      → hashes.hmget s key (map decimal positions)
        ≡ map (λ p. hashes.hash s key (decimal p)) positions
  hmget-field s key positions =
      hashes.hmget-hash s key (map decimal positions)
      ∙ map-map (hashes.hash s key) decimal positions

  -- The entries that are read, out of texts that were written.
  read_entries-Sound :
      (stored : List E) (key : String) (positions : List ℕ) (w : World server around config)
      (es : List E)
      → Sound re stored (λ p. hashes.hash w.server_state key (decimal p))
      → (read_entries server hashes around cut config ri re key positions w).0 ≡ entries es
      → map some es ≡ map (get_elem? stored) positions
  unfolding read_entries command
  read_entries-Sound stored key [] w [] sound h = refl
  read_entries-Sound stored key [] w (x ∷ es) sound h = absurd (cc h)
  read_entries-Sound stored key (p ∷ ps) w es sound h =
      let field : ℕ → Option (List ℕ) = λ q. hashes.hash w.server_state key (decimal q) in
      let raw = hashes.hmget w.server_state key (map decimal (p ∷ ps)) in
      elim (Option-cases (all_some (map field (p ∷ ps)))) [
        | inl e ↦
            let k : all_some raw ≡ none =
              ap all_some (hmget-field w.server_state key (p ∷ ps)) ∙ e in
            absurd (ground (arith, h, k))
        | inr (texts, e) ↦
            let k : all_some raw ≡ some texts =
              ap all_some (hmget-field w.server_state key (p ∷ ps)) ∙ e in
            let (xs, same, picked) = picked-items re stored field (p ∷ ps) texts sound e in
            let parsed : all_some (map re.parse texts) ≡ some xs =
              ap (λ ts. all_some (map re.parse ts)) same ∙ all_some-parse re stored field xs in
            let agree : es ≡ xs = ground (arith, h, k, parsed) in ap (map some) agree ∙ picked
      ]

  EntriesRead-cases :
      (found : EntriesRead E)
      → (found ≡ failed) ⊎ ((found ≡ partial) ⊎ ((es : List E) × (found ≡ entries es)))
  EntriesRead-cases failed = inl refl
  EntriesRead-cases partial = inr (inl refl)
  EntriesRead-cases (entries es) = inr (inr (es, refl))

  module _ (keys : CacheSetKeys) (set : CacheIndexedSet I E) (pick : I → CachePagePick) where
    read_page-index :
        (w : World server around config)
        → Sound re set.entries (λ p. hashes.hash w.server_state keys.entries (decimal p))
        → (read server around config ri keys.index w).0 ≡ some set.index
        → (read server around config ri keys.index w).1.server_state ≡ w.server_state
        → let page = (read_page server hashes around cut config ri re keys pick w).0 in
          (page ≡ none) ⊎ (page ≡ some (pick_in_memory set pick hit))
    unfolding read_page pick_in_memory
    read_page-index w sound e same =
        let w1 = (read server around config ri keys.index w).1 in
        let positions = (pick set.index).positions in
        elim (EntriesRead-cases
          (read_entries server hashes around cut config ri re keys.entries positions w1).0) [
            | inl k ↦ inl (rw (e, read_page) (rw (k, read_page) refl))
            | inr (inl k) ↦ inl (rw (e, read_page) (rw (k, read_page) refl))
            | inr (inr (es, k)) ↦
                let items =
                  read_entries-Sound set.entries keys.entries positions w1 es (rw same sound) k in
                inr (rw (e, read_page) (rw (k, read_page) (rw items refl)))
          ]

    -- Of a set that is stored in part, a page is not read, or is the page of the set.
    read_page-Partly :
        (w : World server around config)
        → Partly server hashes keys re set.entries decimal (encode ri set.index) w.server_state
        → let page = (read_page server hashes around cut config ri re keys pick w).0 in
          (page ≡ none) ⊎ (page ≡ some (pick_in_memory set pick hit))
    unfolding read_page
    read_page-Partly w (index, sound) =
        elim (Option-cases (read server around config ri keys.index w).0) [
          | inl e ↦ inl (rw (e, read_page) refl)
          | inr (i, e) ↦
              let ((bytes, there, decoded), same) =
                read-some server around config ri keys.index w i e in
              let written : decode ri bytes ≡ some set.index = elim index [
                | inl absent ↦ absurd (cc (absent, there))
                | inr present ↦
                    ap (λ o. elim o as (λ _. Option I) [ none ↦ none | some b ↦ decode ri b ])
                      (sym there ∙ present)
                    ∙ decode-encode ri set.index
              ] in
              read_page-index w sound (e ∙ sym decoded ∙ written) same
        ]

    -- A set is stored where nothing was under its two keys. Whatever becomes of the pipeline that
    -- stores it, lost before the server, lost after any number of its commands, or answered, and
    -- whatever becomes of the commands that read it: a page read after that is a miss, or it is
    -- the page of the set in memory, the entries and the total.
    pub read_page-write_set :
        (w : World server around config)
        → keys.index ≢ keys.entries
        → server.get_buffer w.server_state keys.index ≡ none
        → ((field : String) → hashes.hash w.server_state keys.entries field ≡ none)
        → let w' = write_set server hashes around cut config ri re keys set w in
          let page = (read_page server hashes around cut config ri re keys pick w').0 in
          (page ≡ none) ⊎ (page ≡ some (pick_in_memory set pick hit))
    read_page-write_set w apart absent empty =
        read_page-Partly (write_set server hashes around cut config ri re keys set w) (
          write_set-Partly server hashes around cut config ri re keys apart set w
            (inl absent, λ p text h. absurd (cc (h, empty (decimal p)))))
