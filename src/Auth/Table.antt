-- ===== src/Auth/Table.antt =====
-- A server that keeps its texts and sorted sets in functions, to run the session store on.
use Prim.Native.Char.{Char, code}
use Prim.Native.String
use text.Mathlib.Text.{◌==◌ as str_eq}
use text.Mathlib.TextEquality.{eq_iff, Char-path}
use text.Mathlib.TextLemmas.{nil-append, cons-append, append-nil}
use whisky_scrapper_node.Prelude.{
  ℕ, String, ◌≡◌, ◌≢◌, refl, sym, ap, ◌∙◌, Option, none, some, Bool, true, ◌&&◌, ◌||◌, [], ◌∷◌,
  if◌then◌else◌, ◌==◌, join, any, arith, Bool-cases, inl, inr,
}
use whisky_scrapper_node.Auth.Server.{TypeSession, Score, lives, NoGlob, NotGlob, SessionServer}

pub record Shelf : Type 0 where
  pub texts : String → Option (TypeSession × Score)
  pub sets : String → String → Option Score

-- A pattern whose last character is its one star.
abbrev matches : String → String → Bool
matches String.[] key = str_eq key ""
matches (String.◌∷◌ c p) String.[] = code c == b'*'
matches (String.◌∷◌ c p) (String.◌∷◌ d key) =
    let rest = matches p key in code c == b'*' || (code c == code d && rest)

abbrev pattern_of : String → String
pattern_of p = join ":" (p ∷ "*" ∷ [])

colon : (p s : String) → join ":" (p ∷ s ∷ []) ≡ String.◌++◌ p (String.◌∷◌ ":" s)
unfolding join
colon p s = ap (λ t. String.◌++◌ p (String.◌∷◌ ":" t)) (append-nil s)

star_matches : (rest : String) → matches "*" rest ≡ true
star_matches String.[] = refl
star_matches (String.◌∷◌ c s) = refl

matches-prefix :
    (p rest : String)
    → NoGlob p
    → matches (String.◌++◌ p ":*") (String.◌++◌ p (String.◌∷◌ ":" rest)) ≡ true
matches-prefix String.[] rest h =
    rw (nil-append ":*", nil-append (String.◌∷◌ ":" rest)) (star_matches rest)
matches-prefix (String.◌∷◌ c p) rest h =
    rw (cons-append c p ":*", cons-append c p (String.◌∷◌ ":" rest))
      (ground (arith, matches-prefix p rest h.1))

-- The first characters agree, and the rest matches.
matches_step :
    (c d : Char) (p key : String)
    → NotGlob (code c)
    → matches (String.◌∷◌ c p) (String.◌∷◌ d key) ≡ true
    → (code c ≡ code d) × (matches p key ≡ true)
matches_step c d p key h m = (ground arith, ground arith)

matches_end : (c : Char) (p : String) → NotGlob (code c) → matches (String.◌∷◌ c p) "" ≡ true → ⊥
matches_end c p h m = ground arith

prefix_of_matches :
    (p key : String)
    → NoGlob p
    → matches (String.◌++◌ p ":*") key ≡ true
    → (rest : String) × (key ≡ String.◌++◌ p (String.◌∷◌ ":" rest))
prefix_of_matches String.[] String.[] h m = cc
prefix_of_matches String.[] (String.◌∷◌ d key) h m =
    let (same, _) = matches_step ":" d "*" key (omega arith) m in
    (
      key,
      ap (λ c. String.◌∷◌ c key) (sym (Char-path ":" d same))
          ∙ sym (nil-append (String.◌∷◌ ":" key)),
    )
prefix_of_matches (String.◌∷◌ c p) String.[] h m =
    absurd (matches_end c (String.◌++◌ p ":*") h.0 (rw (cons-append c p ":*") at m))
prefix_of_matches (String.◌∷◌ c p) (String.◌∷◌ d key) h m =
    let (same, more) =
      matches_step c d (String.◌++◌ p ":*") key h.0 (rw (cons-append c p ":*") at m) in
    let (rest, e) = prefix_of_matches p key h.1 more in
    (
      rest,
      ap (λ (k : String). String.◌∷◌ d k) e
          ∙ ap (λ b. String.◌∷◌ b (String.◌++◌ p (String.◌∷◌ ":" rest))) (sym (Char-path c d same))
          ∙ sym (cons-append c p (String.◌∷◌ ":" rest)),
    )

abbrev text_at : ℕ → Option (TypeSession × Score) → Option TypeSession
text_at now none = none
text_at now (some (v, e)) = if lives e now then some v else none

abbrev put_at : {A : Type 0} → String → A → (String → A) → String → A
put_at key a f k = if str_eq key k then a else f k

abbrev sweep :
    String → (String → Option (TypeSession × Score)) → String → Option (TypeSession × Score)
sweep pattern texts k = if matches pattern k then none else texts k

pub sweep_self :
    (now : ℕ) (texts : String → Option (TypeSession × Score)) (p rest : String)
    → NoGlob p
    → text_at now (sweep (pattern_of p) texts (join ":" (p ∷ rest ∷ []))) ≡ none
sweep_self now texts p rest h = rw (colon p "*", colon p rest) (rw (matches-prefix p rest h) refl)

pub sweep_ne :
    (now : ℕ) (texts : String → Option (TypeSession × Score)) (p key : String)
    → NoGlob p
    → ((rest : String) → key ≢ join ":" (p ∷ rest ∷ []))
    → text_at now (sweep (pattern_of p) texts key) ≡ text_at now (texts key)
sweep_ne now texts p key h other = elim (Bool-cases (matches (pattern_of p) key)) [
  | inr e ↦ rw e refl
  | inl e ↦
      let (rest, same) = prefix_of_matches p key h (rw (colon p "*") at e) in
      absurd (other rest (same ∙ sym (colon p rest)))
]

pub put_at_self : {A : Type 0} (key : String) (a : A) (f : String → A) → put_at key a f key ≡ a
put_at_self key a f = ground (arith, eq_iff key key)

pub put_at_ne :
    {A : Type 0} (key key' : String) (a : A) (f : String → A)
    → key ≢ key'
    → put_at key a f key' ≡ f key'
put_at_ne key key' a f h = ground (arith, eq_iff key key')

abbrev pub shelf_server : SessionServer
shelf_server = record {
  State = Shelf;
  get = λ s now key. text_at now (s.texts key);
  set = λ s key v e. record s { texts = put_at key (some (v, e)) s.texts };
  del = λ s key. record s { texts = put_at key none s.texts };
  zadd =
      λ s key e member. record s { sets = put_at key (put_at member (some e) (s.sets key)) s.sets };
  zrem = λ s key members. record s {
    sets = put_at key (λ m. if any (str_eq m) members then none else s.sets key m) s.sets;
  };
  scan_del = λ s pattern. record s { texts = sweep pattern s.texts };
  get-set_self = λ s now key v e. ap (text_at now) (put_at_self key (some (v, e)) s.texts);
  get-set_ne =
      λ s now key key' v e h. ap (text_at now) (put_at_ne key key' (some (v, e)) s.texts h);
  get-del_self = λ s now key. ap (text_at now) (put_at_self key none s.texts);
  get-del_ne = λ s now key key' h. ap (text_at now) (put_at_ne key key' none s.texts h);
  get-zadd = λ s now key member key' e. refl;
  get-zrem = λ s now key key' members. refl;
  get-scan_del_self = λ s now p rest h. sweep_self now s.texts p rest h;
  get-scan_del_ne = λ s now p key h other. sweep_ne now s.texts p key h other;
}

abbrev pub empty_shelf : Shelf
empty_shelf = record { texts = λ k. none; sets = λ k m. none }
