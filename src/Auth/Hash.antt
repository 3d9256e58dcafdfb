-- ===== src/Auth/Hash.antt =====
-- Password hashes (utils/hash.util.ts). Argon2, PBKDF2 and the readers of numbers and hexadecimal
-- text are parameters.
use text.Mathlib.Text.{starts_with}
use whisky_scrapper_node.Prelude.{
  ℕ, String, Option, none, some, Bool, true, false, ◌&&◌, List, [], ◌∷◌, if◌then◌else◌, ◌==◌,
  length, split,
}

abbrev pub Bytes : Type 0
Bytes = List ℕ

pub record Primitives : Type 0 where
  pub argon_verify : String → String → Bool
  pub pbkdf2 : String → Bytes → ℕ → ℕ → Bytes
  -- `Number.parseInt`, where it answers an integer above 0.
  pub parse_positive : String → Option ℕ
  pub from_hex : String → Bytes

-- `timingSafeEqual`
abbrev pub equal_bytes : Bytes → Bytes → Bool
equal_bytes [] [] = true
equal_bytes [] (b ∷ bs) = false
equal_bytes (a ∷ as') [] = false
equal_bytes (a ∷ as') (b ∷ bs) = a == b && equal_bytes as' bs

abbrev pub pbkdf2_prefix : String
pbkdf2_prefix = "pbkdf2_sha256$"

unfoldable pub needs_rehash : String → Bool
needs_rehash hash = starts_with hash pbkdf2_prefix

module _ (primitives : Primitives) where
  open primitives use {argon_verify, pbkdf2, parse_positive, from_hex}

  -- On the parts of a hash; there are four.
  unfoldable pub verify_parts : String → List String → Bool
  verify_parts secret (name ∷ count ∷ salt ∷ hash ∷ []) = elim (parse_positive count) [
    | none ↦ false
    | some iterations ↦
        let expected = from_hex hash in
        let derived = pbkdf2 secret (from_hex salt) iterations (length expected) in
        length expected == length derived && equal_bytes expected derived
  ]
  verify_parts secret _ = false

  unfoldable pub verify_pbkdf2 : String → String → Bool
  verify_pbkdf2 secret hash = verify_parts secret (split "$" hash)

  unfoldable pub verify_async : String → String → Bool
  verify_async secret hash =
      if needs_rehash hash then verify_pbkdf2 secret hash else argon_verify hash secret
