-- ===== src/Auth/Signed.antt =====
-- A runtime to run the service on: an access token is its claims, written one behind another with the
-- time of signing, and the user table holds one user, whose login is his id.
use Prim.Native.Char.{code}
use mathlib.Core.Option.{some-injective}
use text.Mathlib.Text.{◌==◌ as str_eq}
use text.Mathlib.TextEquality.{eq_iff}
use whisky_scrapper_node.Prelude.{
  ℕ, zero, suc, String, ◌+◌, ◌≤◌, ◌<◌, ◌≡◌, refl, ap, ◌∙◌, Option, none, some, Bool, true, false,
  [], ◌∷◌, if◌then◌else◌, ltb, ◌==◌, arith, ltb→lt, ◌&&◌, ◌||◌, ◌⊎◌, inl, inr, Bool-cases, sym,
}
use whisky_scrapper_node.Auth.Service.{
  AuthUser, AccessJwt, UserQuery, by_id, by_name, by_email, Users, Runtime,
}

-- Every character behind an x, and a y behind the last.
abbrev quote : String → String → String
quote String.[] rest = String.◌∷◌ "y" rest
quote (String.◌∷◌ c s) rest = String.◌∷◌ "x" (String.◌∷◌ c (quote s rest))

abbrev unquote : String → Option (String × String)
unquote String.[] = none
unquote (String.◌∷◌ c String.[]) = if code c == b'y' then some ("", "") else none
unquote (String.◌∷◌ c (String.◌∷◌ d s)) =
    let rest = unquote s in
    if code c == b'y'
    then some ("", String.◌∷◌ d s)
    else elim rest [ none ↦ none | some (t, r) ↦ some (String.◌∷◌ d t, r) ]

unquote-quote : (s r : String) → unquote (quote s r) ≡ some (s, r)
unquote-quote String.[] String.[] = refl
unquote-quote String.[] (String.◌∷◌ d r) = refl
unquote-quote (String.◌∷◌ c s) r =
    ap
      (λ (o : Option (String × String)). elim o [
        | none ↦ none
        | some (t, q) ↦ some (String.◌∷◌ c t, q)
      ])
      (unquote-quote s r)

abbrev strokes : ℕ → String
strokes zero = ""
strokes (suc n) = String.◌∷◌ "1" (strokes n)

abbrev count : String → ℕ
count String.[] = 0
count (String.◌∷◌ c s) = suc (count s)

count-strokes : (n : ℕ) → count (strokes n) ≡ n
count-strokes zero = refl
count-strokes (suc n) = ap suc (count-strokes n)

abbrev lifetime : ℕ
lifetime = 100

abbrev flag : Bool → String
flag true = "t"
flag false = "f"

abbrev written : ℕ → AccessJwt → String
written at jwt =
    quote jwt.sub (quote jwt.sid (quote jwt.scope (quote (flag jwt.admin) (strokes at))))

abbrev claims : String → String → String → String × String → Option (ℕ × AccessJwt)
claims sub sid scope (admin, rest) =
    some (count rest, record { sub = sub; sid = sid; admin = str_eq admin "t"; scope = scope })

-- A piece, then what is made of it and the rest.
abbrev piece : String → (String × String → Option (ℕ × AccessJwt)) → Option (ℕ × AccessJwt)
piece s f = elim (unquote s) [ none ↦ none | some p ↦ f p ]

abbrev parsed : String → Option (ℕ × AccessJwt)
parsed token = piece token (λ a. piece a.1 (λ b. piece b.1 (λ c. piece c.1 (claims a.0 b.0 c.0))))

piece-quote :
    (s r : String) (f : String × String → Option (ℕ × AccessJwt)) → piece (quote s r) f ≡ f (s, r)
piece-quote s r f =
    ap (λ (o : Option (String × String)). elim o [ none ↦ none | some p ↦ f p ]) (unquote-quote s r)

claims-flag :
    (at : ℕ) (sub sid scope : String) (admin : Bool)
    → claims sub sid scope (flag admin, strokes at)
      ≡ some (at, record { sub = sub; sid = sid; admin = admin; scope = scope })
claims-flag at sub sid scope true = rw (count-strokes at) refl
claims-flag at sub sid scope false = rw (count-strokes at) refl

parsed-written : (at : ℕ) (jwt : AccessJwt) → parsed (written at jwt) ≡ some (at, jwt)
parsed-written at jwt =
    piece-quote jwt.sub _ (λ a. piece a.1 (λ b. piece b.1 (λ c. piece c.1 (claims a.0 b.0 c.0))))
    ∙ piece-quote jwt.sid _ (λ b. piece b.1 (λ c. piece c.1 (claims jwt.sub b.0 c.0)))
    ∙ piece-quote jwt.scope _ (λ c. piece c.1 (claims jwt.sub jwt.sid c.0))
    ∙ piece-quote (flag jwt.admin) _ (claims jwt.sub jwt.sid jwt.scope)
    ∙ claims-flag at jwt.sub jwt.sid jwt.scope jwt.admin

-- A token is read if it is what is written for its claims, and its time has not run out.
abbrev read_as : Bool → ℕ → String → ℕ × AccessJwt → Option AccessJwt
read_as ignoring now token (at, jwt) =
    if str_eq (written at jwt) token && (ignoring || ltb now (at + lifetime))
    then some jwt
    else none

abbrev read : Bool → ℕ → String → Option AccessJwt
read ignoring now token = elim (parsed token) [
  | none ↦ none
  | some p ↦ read_as ignoring now token p
]

read_as-live :
    (ignoring : Bool) (at now : ℕ) (jwt : AccessJwt)
    → now < at + lifetime
    → read_as ignoring now (written at jwt) (at, jwt) ≡ some jwt
read_as-live ignoring at now jwt h = ground (arith, eq_iff (written at jwt) (written at jwt), h)

pub read-written :
    (ignoring : Bool) (at now : ℕ) (jwt : AccessJwt)
    → at ≤ now
    → now < at + lifetime
    → read ignoring now (written at jwt) ≡ some jwt
read-written ignoring at now jwt order h =
    ap
      (λ (o : Option (ℕ × AccessJwt)). elim o [
        | none ↦ none
        | some p ↦ read_as ignoring now (written at jwt) p
      ])
      (parsed-written at jwt)
    ∙ read_as-live ignoring at now jwt h

-- What is read was written, and lasts.
abbrev pub Written : Bool → ℕ → String → AccessJwt → Type 0
Written ignoring now token jwt =
    (at : ℕ) × (token ≡ written at jwt) × ((ignoring ≡ true) ⊎ (now < at + lifetime))

lasting :
    (ignoring : Bool) (now limit : ℕ)
    → ignoring || ltb now limit ≡ true
    → (ignoring ≡ true) ⊎ (now < limit)
lasting true now limit h = inl refl
lasting false now limit h = inr (ltb→lt now limit h)

read_as-Written :
    (ignoring : Bool) (now at : ℕ) (token : String) (found jwt : AccessJwt)
    → read_as ignoring now token (at, found) ≡ some jwt
    → Written ignoring now token jwt
read_as-Written ignoring now at token found jwt h =
    elim (Bool-cases (str_eq (written at found) token)) [
      | inr other ↦ cc (rw other at h)
      | inl same ↦ elim (Bool-cases (ignoring || ltb now (at + lifetime))) [
        | inr over ↦ cc (rw (same, over) at h)
        | inl lasts ↦
            let is : found ≡ jwt = some-injective found jwt (rw (same, lasts) at h) in
            (
              at,
              sym ((eq_iff (written at found) token).0 same) ∙ ap (written at) is,
              lasting ignoring now (at + lifetime) lasts,
            )
      ]
    ]

pub written-read :
    (ignoring : Bool) (now : ℕ) (token : String) (jwt : AccessJwt)
    → read ignoring now token ≡ some jwt
    → Written ignoring now token jwt
written-read ignoring now token jwt = from (parsed token)
  where
    from :
        (o : Option (ℕ × AccessJwt))
        → (elim o [ none ↦ none | some p ↦ read_as ignoring now token p ]) ≡ some jwt
        → Written ignoring now token jwt
    from none h = cc
    from (some (at, found)) h = read_as-Written ignoring now at token found jwt h

abbrev pub plain_runtime : Runtime
plain_runtime = record {
  primitives = record {
    argon_verify = λ hash password. str_eq hash password;
    pbkdf2 = λ secret salt rounds size. [];
    parse_positive = λ s. none;
    from_hex = λ s. [];
  };
  decoy_hash = "decoy";
  hash_refresh_token = λ secret. secret;
  refresh_expires_in_sec = 1;
  access_expires_in_ms = lifetime;
  sign = written;
  verify = read;
  verify-sign = read-written;
  sign-verify = written-read;
}

abbrev login_of : UserQuery → String
login_of (by_id s) = s
login_of (by_name s) = s
login_of (by_email s) = s

abbrev find_one : Option AuthUser → UserQuery → Option AuthUser
find_one none q = none
find_one (some u) q = if str_eq u.id (login_of q) then some u else none

pub find_one_by_id :
    (t : Option AuthUser) (i : String) (u : AuthUser) → find_one t (by_id i) ≡ some u → u.id ≡ i
find_one_by_id none i u h = cc
find_one_by_id (some v) i u h = ground (arith, eq_iff v.id i)

abbrev pub one_user : Users
one_user = record {
  Table = Option AuthUser;
  find = find_one;
  change_password = λ t i p. t;
  find_by_id = find_one_by_id;
}

abbrev pub ann : AuthUser
ann = record {
  id = "ann";
  admin = false;
  active = true;
  password = "swordfish";
  permissions =
      record { resource = "store"; action = "sync" }
      ∷ record { resource = "product"; action = "read" }
      ∷ [];
}
