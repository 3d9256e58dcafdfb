-- ===== src/Cache/Pages/Stored.antt =====
-- What a reader finds of a set, whatever part of its pipeline reached the server.
use whisky_scrapper_node.Prelude.{
  ℕ, zero, suc, String, ◌+◌, ◌≡◌, ◌≢◌, ◌⊎◌, inl, inr, refl, sym, ◌∙◌, Option, none, some, List, [],
  ◌∷◌, map, length, All-append, take_all, ltb, take, get_elem?, All, arith, Bool, true, false,
  Bool-cases, Option-cases, ◌==◌, if◌then◌else◌,
}
use whisky_scrapper_node.Hashes.{answered, lost_before, lost_after}
use whisky_scrapper_node.Cache.Codec.{Runtime, encode}
use whisky_scrapper_node.Cache.Server.{CacheServer}
use whisky_scrapper_node.Cache.Hashes.{SetServer, found, or_else}
use whisky_scrapper_node.Cache.Service.{CacheSettings, Surroundings, World}
use whisky_scrapper_node.Cache.Pages.Fields.{Of, chunk_fields-Of}
use whisky_scrapper_node.Cache.Pages.{
  CacheIndexedSet, hset_chunk, CacheSetKeys, all_some, in_turn, pipeline, set_commands, write_set,
  sum_lengths,
}

-- The picked items, where the names of the positions stand for items that were written.
module _ {E : Type 0} (re : Runtime E) (stored : List E) (field : ℕ → Option (List ℕ)) where
  abbrev pub Sound : Type 0
  Sound =
      (p : ℕ) (text : List ℕ)
      → field p ≡ some text
      → get_elem? (map re.stringify stored) p ≡ some text

  pub item-stringify :
      (items : List E) (p : ℕ) (text : List ℕ)
      → get_elem? (map re.stringify items) p ≡ some text
      → (e : E) × (get_elem? items p ≡ some e) × (text ≡ re.stringify e)
  item-stringify [] p text h = absurd (cc h)
  item-stringify (x ∷ xs) zero text h = (x, refl, cc h)
  item-stringify (x ∷ xs) (suc p) text h = item-stringify xs p text h

  -- Texts that are read are those of the items at the positions.
  pub picked-items :
      (positions : List ℕ) (texts : List (List ℕ))
      → Sound
      → all_some (map field positions) ≡ some texts
      → (es : List E) × (texts ≡ map re.stringify es)
        × (map some es ≡ map (get_elem? stored) positions)
  picked-items [] texts sound h = ([], cc h, refl)
  picked-items (p ∷ ps) texts sound h = elim (Option-cases (field p)) [
    | inl e ↦ absurd (cc (rw e at h))
    | inr (t, e) ↦ elim (Option-cases (all_some (map field ps))) [
      | inl k ↦ absurd (cc (rw (e, k) at h))
      | inr (ts, k) ↦
          let (x, there, written) = item-stringify stored p t (sound p t e) in
          let (xs, same, picked) = picked-items ps ts sound k in
          (x ∷ xs, ground (arith, rw (e, k) at h, same, written), rw (picked, there) refl)
    ]
  ]

  pub all_some-parse : (es : List E) → all_some (map re.parse (map re.stringify es)) ≡ some es
  all_some-parse [] = refl
  all_some-parse (e ∷ es) = rw (re.parse-stringify e, all_some-parse es) refl

module _ (server : CacheServer) (hashes : SetServer server) (keys : CacheSetKeys) where
  -- The index is absent or the one written, and a position has no item or the one written.
  abbrev pub Partly :
      {E : Type 0} → Runtime E → List E → (ℕ → String) → List ℕ → server.State → Type 0
  Partly re stored decimal index s =
      ((server.get_buffer s keys.index ≡ none) ⊎ (server.get_buffer s keys.index ≡ some index))
      × Sound re stored (λ p. hashes.hash s keys.entries (decimal p))

pub in_turn-take :
    {S : Type 0} (P : S → Type 0) (k : ℕ) (changes : List (S → S)) (s : S)
    → All (λ change. (s : S) → P s → P (change s)) changes
    → P s
    → P (in_turn (take k changes) s)
in_turn-take P zero changes s all h = h
in_turn-take P (suc k) [] s all h = h
in_turn-take P (suc k) (change ∷ rest) s all h = in_turn-take P k rest (change s) all.1 (all.0 s h)

module _ (server : CacheServer) (hashes : SetServer server) (around : Surroundings) (cut : ℕ → ℕ)
    (config : CacheSettings) {I E : Type 0} (ri : Runtime I) (re : Runtime E) (keys : CacheSetKeys)
    (apart : keys.index ≢ keys.entries) (set : CacheIndexedSet I E) where
  open around use {decimal, decimal_injective, net}

  abbrev Kept : server.State → Type 0
  Kept = Partly server hashes keys re set.entries decimal (encode ri set.index)

  abbrev Keeps : (server.State → server.State) → Type 0
  Keeps change = (s : server.State) → Kept s → Kept (change s)

  merged :
      (fields : List (String × List ℕ))
      → Of decimal (map re.stringify set.entries) fields
      → (s : server.State) → Sound re set.entries (λ p. hashes.hash s keys.entries (decimal p))
      → (p : ℕ) (text : List ℕ)
      → or_else (found (decimal p) fields) (hashes.hash s keys.entries (decimal p)) ≡ some text
      → get_elem? (map re.stringify set.entries) p ≡ some text
  merged fields of s sound p text h = elim (Option-cases (found (decimal p) fields)) [
    | inl e ↦ sound p text (rw e at h)
    | inr (x, e) ↦ of p text (e ∙ rw e at h)
  ]

  hset-Keeps :
      (fields : List (String × List ℕ))
      → Of decimal (map re.stringify set.entries) fields
      → Keeps (λ s. hashes.hset s keys.entries fields)
  hset-Keeps fields of s (index, sound) = (
    rw (hashes.get_buffer-hset_ne s keys.entries keys.index fields (λ e. apart (sym e))) index,
    λ p text h.
        merged fields of s sound p text
          (sym (hashes.hash-hset s keys.entries (decimal p) fields) ∙ h),
  )

  hsets-Keeps :
      (groups : List (List (String × List ℕ)))
      → All (Of decimal (map re.stringify set.entries)) groups
      → All Keeps (map (λ fields s. hashes.hset s keys.entries fields) groups)
  hsets-Keeps [] h = tt
  hsets-Keeps (g ∷ gs) h = (hset-Keeps g h.0, hsets-Keeps gs h.1)

  expire-Keeps : Keeps (λ s. hashes.expire s keys.entries config.ttl_sec)
  expire-Keeps s (index, sound) = (
    rw (hashes.get_buffer-expire_ne s keys.entries keys.index config.ttl_sec (λ e. apart (sym e)))
        index,
    λ p text h.
        sound p text (sym (hashes.hash-expire s keys.entries (decimal p) config.ttl_sec) ∙ h),
  )

  set_ex-Keeps : Keeps (λ s. server.set_ex s keys.index (encode ri set.index) config.ttl_sec)
  set_ex-Keeps s (index, sound) = (
    inr (server.get_buffer-set_ex s keys.index (encode ri set.index) config.ttl_sec),
    λ p text h. sound p text (
        sym (
          hashes.hash-set_ex_ne s keys.index keys.entries (decimal p) (encode ri set.index)
            config.ttl_sec apart)
        ∙ h),
  )

  del-Keeps : Keeps (λ s. server.del s keys.entries)
  del-Keeps s (index, sound) = (
    rw (hashes.get_buffer-del_ne s keys.entries keys.index (λ e. apart (sym e))) index,
    λ p text h. absurd (cc (h, hashes.hash-del s keys.entries (decimal p))),
  )

  last-Keeps :
      (b : Bool)
      → All Keeps (if b then [] else (λ s. hashes.expire s keys.entries config.ttl_sec) ∷ [])
  last-Keeps true = tt
  last-Keeps false = (expire-Keeps, tt)

  set_commands-Keeps : All Keeps (
      set_commands server hashes around cut config ri re keys
        (encode ri set.index)
        (map re.stringify set.entries))
  unfolding set_commands
  set_commands-Keeps = (
    set_ex-Keeps,
    (
      del-Keeps,
      All-append Keeps _ _
          (hsets-Keeps _
            (chunk_fields-Of decimal decimal_injective hset_chunk (map re.stringify set.entries)))
          (last-Keeps (length (map re.stringify set.entries) == 0)),
    ),
  )

  pipeline-Keeps :
      (changes : List (server.State → server.State))
      → All Keeps changes
      → (w : World server around config) → Kept w.server_state
      → Kept (pipeline server hashes around cut config changes w).server_state
  unfolding pipeline
  pipeline-Keeps changes all w h =
      elim (net w.sent)
        as (λ d.
          Kept
            (elim d as (λ _. World server around config) [
              | answered ↦ record w {
                server_state = in_turn changes w.server_state;
                sent = w.sent + 1;
              }
              | lost_before ↦ record w { sent = w.sent + 1; errors = w.errors + 1 }
              | lost_after ↦ record w {
                server_state = in_turn (take (cut w.sent) changes) w.server_state;
                sent = w.sent + 1;
                errors = w.errors + 1;
              }
            ]).server_state) [
              | answered ↦
                  rw (take_all (length changes) changes (omega arith)) at
                    (in_turn-take Kept (length changes) changes w.server_state all h)
              | lost_before ↦ h
              | lost_after ↦ in_turn-take Kept (cut w.sent) changes w.server_state all h
            ]

  -- Whatever becomes of the pipeline of a set, what is stored is the set in part.
  pub write_set-Partly :
      (w : World server around config)
      → Kept w.server_state
      → Kept (write_set server hashes around cut config ri re keys set w).server_state
  unfolding write_set
  write_set-Partly w h =
      elim (Bool-cases (
        ltb config.max_set_bytes
          (length (encode ri set.index) + sum_lengths (map re.stringify set.entries)))) [
            | inl e ↦ rw (e, write_set) h
            | inr e ↦ rw (e, write_set) (pipeline-Keeps _ set_commands-Keeps w h)
          ]
