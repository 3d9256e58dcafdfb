-- ===== src/Prelude/Split.antt =====
-- `String.prototype.split` and `Array.prototype.join` with a separator of one character.
use Prim.Native.Char.{Char, code}
use Prim.Native.String
use Prim.Native.String.{String}
use text.Mathlib.TextEquality.{Char-path}
use text.Mathlib.TextLemmas.{nil-append, cons-append}
use mathlib.Core.Path.{◌≡◌, sym, ap, ◌∙◌}
use mathlib.Core.Logic.{◌≢◌, inl, inr}
use mathlib.Core.List.{List, [], ◌∷◌}
use native.Mathlib.Omega.{arith}
use whisky_scrapper_node.Prelude.Tests.{if◌then◌else◌, ◌==◌, ==_iff, Bool-cases}
use whisky_scrapper_node.Prelude.Lists.{All}

-- The piece before the first separator, and the pieces behind it.
abbrev pub Pieces : Type 0
Pieces = String × List String

module _ (sep : Char) where
  abbrev pub cut : String → Pieces
  cut String.[] = ("", [])
  cut (String.◌∷◌ c s) =
      let rest = cut s in
      if code c == code sep then ("", rest.0 ∷ rest.1) else (String.◌∷◌ c rest.0, rest.1)

  unfoldable pub split : String → List String
  split s = (cut s).0 ∷ (cut s).1

  -- The pieces, each behind a separator.
  abbrev pub behind : List String → String
  behind [] = ""
  behind (p ∷ ps) = String.◌∷◌ sep (String.◌++◌ p (behind ps))

  unfoldable pub join : List String → String
  join [] = ""
  join (p ∷ ps) = String.◌++◌ p (behind ps)

  -- No character of the text is the separator.
  abbrev pub Lacks : String → Type 0
  Lacks String.[] = Unit
  Lacks (String.◌∷◌ c s) = (code c ≢ code sep) × Lacks s

  cut-behind_first :
      (p : String) (ps : List String)
      → cut (String.◌∷◌ sep (String.◌++◌ p (behind ps)))
        ≡ ("", (cut (String.◌++◌ p (behind ps))).0 ∷ (cut (String.◌++◌ p (behind ps))).1)
  cut-behind_first p ps = ground arith

  cut-join :
      (p : String) (ps : List String)
      → Lacks p
      → All Lacks ps
      → cut (String.◌++◌ p (behind ps)) ≡ (p, ps)
  cut-join String.[] [] h hs = ap cut (nil-append "")
  cut-join String.[] (p ∷ ps) h hs =
      ap cut (nil-append (behind (p ∷ ps)))
      ∙ cut-behind_first p ps
      ∙ ap (λ (r : Pieces). ("", r.0 ∷ r.1)) (cut-join p ps hs.0 hs.1)
  cut-join (String.◌∷◌ c s) ps h hs =
      rw (cons-append c s (behind ps)) (ground (arith, cut-join s ps h.1 hs))

  -- Splitting a join gives the pieces back where none holds the separator.
  pub split-join :
      (p : String) (ps : List String) → All Lacks (p ∷ ps) → split (join (p ∷ ps)) ≡ p ∷ ps
  unfolding split join
  split-join p ps h = ap (λ (r : Pieces). r.0 ∷ r.1) (cut-join p ps h.0 h.1)

  join-cut : (s : String) → String.◌++◌ (cut s).0 (behind (cut s).1) ≡ s
  join-cut String.[] = nil-append ""
  join-cut (String.◌∷◌ c s) = elim (Bool-cases (code c == code sep)) [
    | inl e ↦ rw e (
        nil-append _
        ∙ ap (String.◌∷◌ sep) (join-cut s)
        ∙ ap (λ d. String.◌∷◌ d s) (Char-path sep c (sym ((==_iff (code c) (code sep)).0 e))))
    | inr e ↦ rw e (cons-append c _ _ ∙ ap (String.◌∷◌ c) (join-cut s))
  ]

  -- Joining the pieces of a split gives the text back.
  pub join-split : (s : String) → join (split s) ≡ s
  unfolding split join
  join-split s = join-cut s

  cut-Lacks : (s : String) → Lacks (cut s).0 × All Lacks (cut s).1
  cut-Lacks String.[] = (tt, tt)
  cut-Lacks (String.◌∷◌ c s) = elim (Bool-cases (code c == code sep)) [
    | inl e ↦ rw e (tt, cut-Lacks s)
    | inr e ↦ rw e ((ground arith, (cut-Lacks s).0), (cut-Lacks s).1)
  ]

  -- No piece of a split holds the separator.
  pub split-Lacks : (s : String) → All Lacks (split s)
  unfolding split
  split-Lacks s = cut-Lacks s

  -- What stands before the first separator is the first piece.
  pub cut_first : (p t : String) → Lacks p → (cut (String.◌++◌ p (String.◌∷◌ sep t))).0 ≡ p
  cut_first String.[] t h = rw (nil-append (String.◌∷◌ sep t)) (ground arith)
  cut_first (String.◌∷◌ c p) t h =
      rw (cons-append c p (String.◌∷◌ sep t)) (ground (arith, cut_first p t h.1))
