-- ===== src/Auth/Tokens/Scopes.antt =====
-- What a user may do survives the access token.
use Prim.Native.Char.{Char}
use text.Mathlib.Text.{◌==◌ as str_eq}
use text.Mathlib.TextEquality.{eq_iff}
use text.Mathlib.TextLemmas.{nil-append, cons-append, append-nil}
use whisky_scrapper_node.Prelude.{
  String, ◌≡◌, refl, ap, ◌∙◌, sym, inl, inr, Bool, true, false, not, ◌&&◌, ◌||◌, List, [], ◌∷◌,
  ◌++◌, map, if◌then◌else◌, any, All, All-filter, filter, arith, Bool-cases, distinct, split, join,
  Lacks, split-join,
}
use whisky_scrapper_node.Auth.Tokens.{
  ◌++ₛ◌, Permission, resources, actions, scope_of, encode_scopes, PermissionMap, allows, add, grant,
  granted_by, decode_from, decode_scopes,
}

-- The permission is for the action on the resource.
abbrev pub is_for : String → String → Permission → Bool
is_for r a p = str_eq p.resource r && str_eq p.action a

-- The resource and the action are those of the program.
abbrev pub Known : Permission → Type 0
Known p = (any (str_eq p.resource) resources ≡ true) × (any (str_eq p.action) actions ≡ true)

any-snoc :
    (f : String → Bool) (xs : List String) (x : String) → any f (xs ++ x ∷ []) ≡ any f xs || f x
any-snoc f [] x = ground arith
any-snoc f (y ∷ xs) x = ground (arith, any-snoc f xs x)

added_self :
    (b : String) (set : List String) → any (str_eq b) (add b set) ≡ str_eq b b || any (str_eq b) set
added_self b set = ground (arith, any-snoc (str_eq b) set b, eq_iff b b)

any-add :
    (a b : String) (set : List String)
    → any (str_eq b) (add a set) ≡ str_eq a b || any (str_eq b) set
any-add a b set = elim (Bool-cases (str_eq a b)) [
  | inl same ↦ rw ((eq_iff a b).0 same) (added_self b set)
  | inr other ↦ ground (arith, any-snoc (str_eq b) set a, eq_iff a b, eq_iff b a)
]

allows-grant :
    (r a r' a' : String) (m : PermissionMap)
    → allows (grant r a m) r' a' ≡ (str_eq r r' && str_eq a a') || allows m r' a'
unfolding grant
allows-grant r a r' a' [] = ground (arith, eq_iff a a', eq_iff a' a)
allows-grant r a r' a' ((k, set) ∷ m) =
    ground (arith, eq_iff k r, eq_iff k r', eq_iff r r', any-add a a' set, allows-grant r a r' a' m)

any-known :
    (P : String → Type 0) (xs : List String) (x : String)
    → All P xs
    → any (str_eq x) xs ≡ true
    → P x
any-known P [] x h e = cc
any-known P (y ∷ xs) x h e = elim (Bool-cases (str_eq x y)) [
  | inl same ↦ rw ((eq_iff x y).0 same) h.0
  | inr other ↦ any-known P xs x h.1 (ground arith)
]

-- No word of a scope holds one of the separators.
abbrev Word : String → Type 0
Word s = Lacks " " s × Lacks ":" s

resources-Word : All Word resources
resources-Word = omega arith

actions-Word : All Word actions
actions-Word = omega arith

Lacks-append : (c : Char) (s t : String) → Lacks c s → Lacks c t → Lacks c (s ++ₛ t)
Lacks-append c String.[] t h k = rw nil-append k
Lacks-append c (String.◌∷◌ d s) t h k = rw (cons-append d s t) (h.0, Lacks-append c s t h.1 k)

scope_of-join : (p : Permission) → scope_of p ≡ join ":" (p.resource ∷ p.action ∷ [])
unfolding join
scope_of-join p =
    ap (λ t. p.resource ++ₛ t)
      (cons-append ":" "" p.action
        ∙ ap (String.◌∷◌ ":") (nil-append p.action ∙ sym (append-nil p.action)))

module _ (p : Permission) (known : Known p) where
  resource_Word : Word p.resource
  resource_Word = any-known Word resources p.resource resources-Word known.0

  action_Word : Word p.action
  action_Word = any-known Word actions p.action actions-Word known.1

  scope_of-Lacks : Lacks " " (scope_of p)
  scope_of-Lacks =
      Lacks-append " " p.resource (":" ++ₛ p.action) resource_Word.0
        (Lacks-append " " ":" p.action ((omega arith), tt) action_Word.0)

  split-scope_of : split ":" (scope_of p) ≡ p.resource ∷ p.action ∷ []
  split-scope_of =
      ap (split ":") (scope_of-join p)
      ∙ split-join ":" p.resource (p.action ∷ []) (resource_Word.1, (action_Word.1, tt))

  granted_by-scope_of :
      (acc : PermissionMap)
      → granted_by (split ":" (scope_of p)) acc ≡ grant p.resource p.action acc
  unfolding granted_by
  granted_by-scope_of acc = rw split-scope_of (rw known.0 (rw known.1 refl))

-- The scope grants the action on the resource.
abbrev grants : String → String → String → Bool
grants r a str = allows (granted_by (split ":" str) []) r a

allows-gated :
    (b : Bool) (x y r a : String) (acc : PermissionMap)
    → allows (if b then grant x y acc else acc) r a
      ≡ allows (if b then grant x y [] else []) r a || allows acc r a
allows-gated true x y r a acc = ground (arith, allows-grant x y r a acc, allows-grant x y r a [])
allows-gated false x y r a acc = refl

allows-granted_by :
    (r a : String) (parts : List String) (acc : PermissionMap)
    → allows (granted_by parts acc) r a ≡ allows (granted_by parts []) r a || allows acc r a
unfolding granted_by
allows-granted_by r a [] acc = refl
allows-granted_by r a (x ∷ []) acc = refl
allows-granted_by r a (x ∷ y ∷ rest) acc =
    allows-gated (any (str_eq x) resources && any (str_eq y) actions) x y r a acc

or_swap : (x y z : Bool) → x || (y || z) ≡ (y || x) || z
or_swap x y z = ground arith

allows-decode_from :
    (r a : String) (strs : List String) (acc : PermissionMap)
    → allows (decode_from strs acc) r a ≡ any (grants r a) strs || allows acc r a
unfolding decode_from
allows-decode_from r a [] acc = refl
allows-decode_from r a (str ∷ strs) acc =
    allows-decode_from r a strs (granted_by (split ":" str) acc)
    ∙ ap (λ b. any (grants r a) strs || b) (allows-granted_by r a (split ":" str) acc)
    ∙ or_swap (any (grants r a) strs) (grants r a str) (allows acc r a)

any-filter_ne :
    (f : String → Bool) (x : String) (xs : List String)
    → f x || any f (filter (λ y. not (str_eq x y)) xs) ≡ f x || any f xs
any-filter_ne f x [] = refl
any-filter_ne f x (y ∷ ys) = elim (Bool-cases (str_eq x y)) [
  | inl same ↦ ground (arith, any-filter_ne f x ys, ap f ((eq_iff x y).0 same))
  | inr other ↦ ground (arith, any-filter_ne f x ys)
]

any-distinct : (f : String → Bool) (xs : List String) → any f (distinct xs) ≡ any f xs
unfolding distinct
any-distinct f [] = refl
any-distinct f (x ∷ xs) = any-filter_ne f x (distinct xs) ∙ ap (λ b. f x || b) (any-distinct f xs)

distinct-All : (P : String → Type 0) (xs : List String) → All P xs → All P (distinct xs)
unfolding distinct
distinct-All P [] h = tt
distinct-All P (x ∷ xs) h =
    (h.0, All-filter P (λ y. not (str_eq x y)) (distinct xs) (distinct-All P xs h.1))

map-scope_of-Lacks : (ps : List Permission) → All Known ps → All (Lacks " ") (map scope_of ps)
map-scope_of-Lacks [] h = tt
map-scope_of-Lacks (p ∷ ps) h = (scope_of-Lacks p h.0, map-scope_of-Lacks ps h.1)

grants-scope_of :
    (r a : String) (ps : List Permission)
    → All Known ps
    → any (grants r a) (map scope_of ps) ≡ any (is_for r a) ps
grants-scope_of r a [] h = refl
grants-scope_of r a (p ∷ ps) h =
    ap (λ m. allows m r a || any (grants r a) (map scope_of ps)) (granted_by-scope_of p h.0 [])
    ∙ ap (λ b. b || any (grants r a) (map scope_of ps)) (allows-grant p.resource p.action r a [])
    ∙ ap (λ b. (is_for r a p || false) || b) (grants-scope_of r a ps h.1)
    ∙ ground arith

-- Words that were joined are split again; none are read as one empty word.
allows-decode-join :
    (r a : String) (strs : List String)
    → All (Lacks " ") strs
    → allows (decode_scopes (join " " strs)) r a ≡ any (grants r a) strs
unfolding decode_scopes
allows-decode-join r a [] h = unfold split join decode_from granted_by in refl
allows-decode-join r a (str ∷ strs) h =
    ap (λ xs. allows (decode_from xs []) r a) (split-join " " str strs h)
    ∙ allows-decode_from r a (str ∷ strs) []
    ∙ ground arith

-- The permissions of a user, each for a resource and an action of the program, are written into the
-- scope of an access token; what is read from that scope allows an action on a resource exactly when
-- one of the permissions is for them.
pub allows-decode-encode :
    (ps : List Permission) (r a : String)
    → All Known ps
    → allows (decode_scopes (encode_scopes ps)) r a ≡ any (is_for r a) ps
unfolding encode_scopes
allows-decode-encode ps r a h =
    allows-decode-join r a (distinct (map scope_of ps))
      (distinct-All (Lacks " ") (map scope_of ps) (map-scope_of-Lacks ps h))
    ∙ any-distinct (grants r a) (map scope_of ps)
    ∙ grants-scope_of r a ps h
