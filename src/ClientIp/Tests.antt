-- ===== src/ClientIp/Tests.antt =====
-- Addresses of concrete requests.
use Prim.Native.Char.{code}
use text.Mathlib.Text.{◌==◌ as str_eq}
use text.Mathlib.TextLemmas.{nil-append, cons-append}
use whisky_scrapper_node.Prelude.{
  String, ◌≡◌, refl, ap, arith, ◌∙◌, List, [], ◌∷◌, ◌++◌, if◌then◌else◌, ◌==◌,
}
use whisky_scrapper_node.ClientIp.{
  last_hop, resolve_from, ◌++ₛ◌, Runtime, HeaderValue, absent, one, repeated, resolve,
}
use whisky_scrapper_node.ClientIp.Hops.{resolve-appended}

-- The piece before the first comma, and the pieces behind it.
abbrev Pieces : Type 0
Pieces = String × List String

abbrev all_of : Pieces → List String
all_of p = p.0 ∷ p.1

abbrev cut : String → Pieces
cut String.[] = ("", [])
cut (String.◌∷◌ c s) =
    let rest = cut s in if code c == b',' then ("", all_of rest) else (String.◌∷◌ c rest.0, rest.1)

cut_comma : (b : String) → cut ("," ++ₛ b) ≡ ("", all_of (cut b))
cut_comma b = ap cut (cons-append "," "" b ∙ ap (λ s. String.◌∷◌ "," s) (nil-append b))

cut-append : (a b : String) → cut (a ++ₛ "," ++ₛ b) ≡ ((cut a).0, (cut a).1 ++ all_of (cut b))
cut-append String.[] b = rw nil-append (cut_comma b)
cut-append (String.◌∷◌ c s) b = rw (cons-append c s ("," ++ₛ b)) (ground (arith, cut-append s b))

abbrev commas : Runtime
commas = record {
  split = λ s. all_of (cut s);
  trim = λ s. s;
  split-append = λ a b. ap all_of (cut-append a b);
}

-- A client forges one hop of the trusted header and the whole of another.
abbrev forged_headers : String → HeaderValue
forged_headers name =
    if str_eq name "x-forwarded-for"
    then one "1.2.3.4,10.0.0.7"
    else if str_eq name "x-real-ip"
    then repeated ("6.6.6.6" ∷ [])
    else absent

forged_resolve :
    resolve commas forged_headers "9.9.9.9"
      ("cf-connecting-ip" ∷ "x-forwarded-for" ∷ "x-real-ip" ∷ [])
    ≡ "10.0.0.7"
unfolding resolve resolve_from last_hop
forged_resolve = refl

untrusted_resolve : resolve commas forged_headers "9.9.9.9" [] ≡ "9.9.9.9"
unfolding resolve resolve_from last_hop
untrusted_resolve = refl

resolve-appended_example :
    resolve commas forged_headers "9.9.9.9"
      ("cf-connecting-ip" ∷ "x-forwarded-for" ∷ "x-real-ip" ∷ [])
    ≡ "10.0.0.7"
unfolding last_hop
resolve-appended_example =
    resolve-appended commas forged_headers "9.9.9.9" ("cf-connecting-ip" ∷ []) ("x-real-ip" ∷ [])
      "x-forwarded-for" "1.2.3.4" "10.0.0.7" "10.0.0.7" (refl, tt) refl refl refl (λ e. cc)
