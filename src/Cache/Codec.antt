-- ===== src/Cache/Codec.antt =====
-- The format of a stored entry (lib/cache/cache-codec.util.ts). JSON and gzip belong to the runtime
-- and are parameters, with what the codec relies on.
use whisky_scrapper_node.Prelude.{
  ℕ, ◌<◌, ◌≡◌, ◌≢◌, refl, Option, none, some, Bool, true, false, List, [], ◌∷◌, arith, ltb, ◌==◌,
  ◌&&◌, if◌then◌else◌, length, Bool-cases, inl, inr, get_elem?, ap, ==_iff,
}

pub record Runtime (V : Type 0) : Type 0 where
  pub stringify : V → List ℕ
  pub parse : List ℕ → Option V
  pub gzip : List ℕ → List ℕ
  pub gunzip : List ℕ → Option (List ℕ)
  pub parse-stringify : (v : V) → parse (stringify v) ≡ some v
  pub gunzip-gzip : (bytes : List ℕ) → gunzip (gzip bytes) ≡ some bytes
  -- A gzip stream is a header of ten bytes and more, of which the first two are fixed.
  pub gzip_header :
      (bytes : List ℕ) → (rest : List ℕ) × (gzip bytes ≡ 0x1f ∷ 0x8b ∷ rest) × (0 < length rest)
  -- JSON text does not begin with the byte 0x1f.
  pub json_start : (v : V) → get_elem? (stringify v) 0 ≢ some 0x1f

-- CACHE_GZIP_MIN_BYTES
abbrev pub gzip_min_bytes : ℕ
gzip_min_bytes = 1024

-- Longer than the two bytes of the magic number, and beginning with them.
unfoldable pub is_compressed : List ℕ → Bool
is_compressed (a ∷ b ∷ c ∷ rest) = a == 0x1f && b == 0x8b
is_compressed _ = false

not_compressed : (bytes : List ℕ) → get_elem? bytes 0 ≢ some 0x1f → is_compressed bytes ≡ false
unfolding is_compressed
not_compressed [] h = refl
not_compressed (a ∷ []) h = refl
not_compressed (a ∷ b ∷ []) h = refl
not_compressed (a ∷ b ∷ c ∷ rest) h = elim (Bool-cases (a == 0x1f)) [
  | inl e ↦ absurd (h (ap some ((==_iff a 0x1f).0 e)))
  | inr e ↦ rw e
]

compressed :
    (bytes rest : List ℕ)
    → bytes ≡ 0x1f ∷ 0x8b ∷ rest
    → 0 < length rest
    → is_compressed bytes ≡ true
unfolding is_compressed
compressed bytes [] e h = absurd (omega (arith, h))
compressed bytes (c ∷ rest) e h = rw e

module _ {V : Type 0} (r : Runtime V) where
  unfoldable pub encode : V → List ℕ
  encode value =
      let json = r.stringify value in if ltb (length json) gzip_min_bytes then json else r.gzip json

  -- `none` where the bytes are no payload of this codec, at which `decode` throws.
  unfoldable pub decode : List ℕ → Option V
  decode payload =
      if is_compressed payload
      then elim (r.gunzip payload) [ none ↦ none | some json ↦ r.parse json ]
      else r.parse payload

  -- What is encoded, compressed or not, is decoded to the same value.
  pub decode-encode : (v : V) → decode (encode v) ≡ some v
  unfolding decode encode
  decode-encode v = elim (Bool-cases (ltb (length (r.stringify v)) gzip_min_bytes)) [
    | inl e ↦ rw (e, not_compressed (r.stringify v) (r.json_start v), r.parse-stringify v)
    | inr e ↦
        let (rest, h, k) = r.gzip_header (r.stringify v) in
        rw (
          e,
          compressed (r.gzip (r.stringify v)) rest h k,
          r.gunzip-gzip (r.stringify v),
          r.parse-stringify v,
        )
  ]
