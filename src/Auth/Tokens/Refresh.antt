-- ===== src/Auth/Tokens/Refresh.antt =====
-- Refresh tokens are read exactly as they are written.
use text.Mathlib.TextEquality.{eq_iff}
use whisky_scrapper_node.Prelude.{
  String, ◌≡◌, ◌≢◌, ◌↔◌, some, ap, ◌∙◌, sym, List, [], ◌∷◌, arith, split, join, Lacks, split-join,
  join-split, split-Lacks,
}
use whisky_scrapper_node.Auth.Tokens.{
  ParsedRefreshToken, parts_of, parse_refresh_token, generate_refresh_token,
}

-- No part is empty or holds a dot.
abbrev pub Plain : String → Type 0
Plain s = Lacks "." s × (s ≢ "")

parts_of-filled :
    (u i s : String)
    → u ≢ ""
    → i ≢ ""
    → s ≢ ""
    → parts_of (u ∷ i ∷ s ∷ []) ≡ some (record { user_id = u; sid = i; secret = s })
unfolding parts_of
parts_of-filled u i s hu hi hs = ground (arith, eq_iff u "", eq_iff i "", eq_iff s "")

-- What was read from the parts of a token.
parts_of-inv :
    (parts : List String) (p : ParsedRefreshToken)
    → parts_of parts ≡ some p
    → (parts ≡ p.user_id ∷ p.sid ∷ p.secret ∷ [])
      × (p.user_id ≢ "")
      × (p.sid ≢ "")
      × (p.secret ≢ "")
unfolding parts_of
parts_of-inv [] p h = cc
parts_of-inv (u ∷ []) p h = cc
parts_of-inv (u ∷ i ∷ []) p h = cc
parts_of-inv (u ∷ i ∷ s ∷ []) p h = ground (arith, eq_iff u "", eq_iff i "", eq_iff s "")
parts_of-inv (u ∷ i ∷ s ∷ r ∷ rs) p h = cc

-- A token is read as a user, a session and a secret exactly when it is what is generated for them,
-- and none of the three is empty or holds a dot.
pub parse_refresh_token_iff :
    (hash : String → String) (token : String) (p : ParsedRefreshToken)
    → (parse_refresh_token token ≡ some p) ↔ (
        ((generate_refresh_token hash p.user_id p.sid p.secret).token ≡ token)
        × Plain p.user_id
        × Plain p.sid
        × Plain p.secret)
unfolding parse_refresh_token generate_refresh_token
parse_refresh_token_iff hash token p = (
  (λ h.
      let (parts, u, i, s) = parts_of-inv (split "." token) p h in
      let (lu, (li, (ls, _))) = rw parts at (split-Lacks "." token) in
      (ap (join ".") (sym parts) ∙ join-split "." token, (lu, u), (li, i), (ls, s))),
  (λ h.
      let (same, (lu, u), (li, i), (ls, s)) = h in
      ap (λ t. parts_of (split "." t)) (sym same)
      ∙ ap parts_of (split-join "." p.user_id (p.sid ∷ p.secret ∷ []) (lu, (li, (ls, tt))))
      ∙ parts_of-filled p.user_id p.sid p.secret u i s),
)
