-- ===== src/RateLimit/Guard/Labels.antt =====
-- The labels under which the guard counts: never drawn from the caller.
use Prim.Native.Char.{code}
use text.Mathlib.TextEquality.{eq_iff}
use text.Mathlib.TextLemmas.{nil-append, cons≢nil, cons-append, append_assoc}
use whisky_scrapper_node.Prelude.{
  String, ◌≡◌, ◌≢◌, Option, none, some, List, [], ◌∷◌, arith, ap, true, inl, inr, ◌∙◌,
  if◌then◌else◌, Bool-cases,
}
use whisky_scrapper_node.RateLimit.Store.{RateLimitCharge}
use whisky_scrapper_node.RateLimit.Guard.{
  RateLimitConfig, Request, before_colon, label, charges, truthy, ◌++ₛ◌, or_empty,
}

-- No character of the text is a colon.
abbrev pub NoColon : String → Type 0
NoColon String.[] = Unit
NoColon (String.◌∷◌ c s) = (code c ≢ b':') × NoColon s

before_colon_first : (t : String) → before_colon (":" ++ₛ t) ≡ some ""
unfolding before_colon
before_colon_first t = ap before_colon (cons-append ":" "" t)

before_colon-append : (s t : String) → NoColon s → before_colon (s ++ₛ (":" ++ₛ t)) ≡ some s
unfolding before_colon
before_colon-append String.[] t h = rw nil-append (before_colon_first t)
before_colon-append (String.◌∷◌ c s) t (d, h) =
    rw (cons-append c s (":" ++ₛ t)) (ground (arith, before_colon-append s t h))

label-append : (s t : String) → NoColon s → s ≢ "" → label (s ++ₛ (":" ++ₛ t)) ≡ s
unfolding label
label-append s t h full = rw (before_colon-append s t h, label) (ground (arith, eq_iff s ""))

truthy-ne : (o : Option String) → truthy o ≡ true → or_empty o ≢ ""
truthy-ne none h = cc
truthy-ne (some s) h = ground (arith, eq_iff s "")

pub labels : List RateLimitCharge → List String
labels [] = []
labels (c ∷ cs) = label c.key ∷ labels cs

label-global : (t : String) → label ("global:" ++ₛ t) ≡ "global"
label-global t =
    ap label (append_assoc "global" ":" t) ∙ label-append "global" t (omega arith) (λ e. cons≢nil e)

-- The buckets of a request are counted under "global" and, where its route declares a profile, the
-- profile's name (which holds no colon): never under anything that the caller chooses.
pub labels-charges :
    (config : RateLimitConfig) (r : Request)
    → NoColon (or_empty r.profile)
    → labels (charges config r)
      ≡ "global" ∷ (if truthy r.profile then or_empty r.profile ∷ [] else [])
unfolding labels charges
labels-charges config r h = elim (Bool-cases (truthy r.profile)) [
  | inl on ↦
      rw (on, label-global)
        (ap (λ l. "global" ∷ l ∷ [])
          (label-append (or_empty r.profile) _ h (truthy-ne r.profile on)))
  | inr off ↦ rw (off, label-global)
]
