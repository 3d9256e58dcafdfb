-- ===== src/Auth/Service.antt =====
-- Sign-in, refresh and authentication (domain/auth/auth.service.ts). The user table, the signing of
-- access tokens and the time are parameters, and so are the random texts that a call draws.
pub mod Rotation
pub mod Revoked
pub mod Login
pub mod Access
use Prim.Native.Char.{code}
use Prim.Native.String
use text.Mathlib.Text.{◌==◌ as str_eq}
use whisky_scrapper_node.Prelude.{
  ℕ, suc, String, ◌+◌, ◌*◌, ◌≤◌, ◌<◌, ◌≡◌, ◌⊎◌, Option, none, some, Bool, true, false, not, ◌&&◌,
  ◌||◌, List, if◌then◌else◌, ◌==◌, leb,
}
use whisky_scrapper_node.Auth.Tokens.{
  Permission, PermissionMap, ParsedRefreshToken, parse_refresh_token, generate_refresh_token,
  encode_scopes, decode_scopes,
}
use whisky_scrapper_node.Auth.Server.{TypeSession, Score, at, SessionServer}
use whisky_scrapper_node.Auth.Sessions.{register, has, get_session, revoke, revoke_all}
use whisky_scrapper_node.Auth.Hash.{Primitives, verify_async, needs_rehash}

pub record AuthUser : Type 0 where
  pub id : String
  pub admin : Bool
  pub active : Bool
  pub password : String
  pub permissions : List Permission

pub record AccessJwt : Type 0 where
  pub sub : String
  pub sid : String
  pub admin : Bool
  pub scope : String

pub record CtxUser : Type 0 where
  pub id : String
  pub sid : String
  pub admin : Bool
  pub permissions : PermissionMap

pub record AuthTokens : Type 0 where
  pub access : String
  pub refresh : String

pub data UserQuery : Type 0 where
  by_id by_name by_email : String → UserQuery

abbrev pub query_text : UserQuery → String
query_text (by_id s) = s
query_text (by_name s) = s
query_text (by_email s) = s

-- The user table.
pub record Users : Type 1 where
  pub Table : Type 0
  pub find : Table → UserQuery → Option AuthUser
  pub change_password : Table → String → String → Table
  pub find_by_id : (t : Table) (i : String) (u : AuthUser) → find t (by_id i) ≡ some u → u.id ≡ i

pub record Runtime : Type 0 where
  pub primitives : Primitives
  pub decoy_hash : String
  -- SHA-256 as base64url.
  pub hash_refresh_token : String → String
  pub refresh_expires_in_sec : ℕ
  pub access_expires_in_ms : ℕ
  pub sign : ℕ → AccessJwt → String
  -- What the signature library reads from a token; the flag is its option `ignoreExpiration`.
  pub verify : Bool → ℕ → String → Option AccessJwt
  -- A token that was signed is read back until it expires.
  pub verify-sign :
      (ignoring : Bool) (then_ now : ℕ) (jwt : AccessJwt)
      → then_ ≤ now
      → now < then_ + access_expires_in_ms
      → verify ignoring now (sign then_ jwt) ≡ some jwt
  -- Nothing is read from any other token, nor from one that expired, where that is not ignored.
  pub sign-verify :
      (ignoring : Bool) (now : ℕ) (token : String) (jwt : AccessJwt)
      → verify ignoring now token ≡ some jwt
      → (then_ : ℕ) × (token ≡ sign then_ jwt)
        × ((ignoring ≡ true) ⊎ (now < then_ + access_expires_in_ms))

-- `AuthTokenService.verifyAccessToken`, with its default.
abbrev pub verify_access_token : Runtime → ℕ → String → Option AccessJwt
verify_access_token runtime now token = runtime.verify false now token

pub data Outcome (A : Type 0) : Type 0 where
  answer : A → Outcome A
  not_authenticated : Outcome A
  not_authorized : Outcome A

-- `indexOf('@')`
unfoldable pub index_of_at : String → Option ℕ
index_of_at String.[] = none
index_of_at (String.◌∷◌ c s) =
    let rest = index_of_at s in
    if code c == b'@' then some 0 else elim rest [ none ↦ none | some i ↦ some (suc i) ]

abbrev pub query_of : String → UserQuery
query_of login = elim (index_of_at login) [
  | none ↦ by_name login
  | some i ↦ if leb 1 i then by_email login else by_name login
]

module _ (users : Users) where
  open users use {Table, find}

  -- `CoreUserService.getAuthInfo`
  unfoldable pub get_auth_info : Table → UserQuery → Option AuthUser
  get_auth_info table query = if str_eq (query_text query) "" then none else find table query

module _ (server : SessionServer) (users : Users) (runtime : Runtime) where
  open server use {State}
  open users use {Table, change_password}
  open runtime use {primitives, decoy_hash, hash_refresh_token, refresh_expires_in_sec, sign}

  -- `createSessionTokens` and `createSession`, with the session id that is kept or was drawn.
  unfoldable pub create_session :
      ℕ → AuthUser → String → String → String → String → State → AuthTokens × State
  create_session now user ip user_agent sid secret s =
      let refresh = generate_refresh_token hash_refresh_token user.id sid secret in
      let access = sign now (record {
        sub = user.id;
        sid = sid;
        admin = user.admin;
        scope = encode_scopes user.permissions;
      }) in
      let expires = now + refresh_expires_in_sec * 1000 in
      let payload : TypeSession = record {
        sid = sid;
        ip = ip;
        user_agent = user_agent;
        expires = expires;
        refresh_hash = refresh.hash;
      } in
      (
        record { access = access; refresh = refresh.token },
        register server user.id payload (at expires) s,
      )

  unfoldable pub upgrade_hash_if_needed : Table → AuthUser → String → Table
  upgrade_hash_if_needed table user password =
      if needs_rehash user.password then change_password table user.id password else table

  -- Where a user was found, on the password's proof.
  unfoldable pub admit :
      ℕ
      → AuthUser
      → Bool
      → String
      → String
      → String
      → String
      → String
      → Table
      → State
      → Outcome AuthTokens × Table × State
  admit now user valid password ip user_agent sid secret table s =
      if not valid
      then (not_authenticated, table, s)
      else if not user.active
      then (not_authorized, table, s)
      else let table' = upgrade_hash_if_needed table user password in
        let (tokens, s') = create_session now user ip user_agent sid secret s in
        (answer tokens, table', s')

  unfoldable pub login :
      ℕ
      → String
      → String
      → String
      → String
      → String
      → String
      → Table
      → State
      → Outcome AuthTokens × Table × State
  login now name password ip user_agent sid secret table s =
      elim (get_auth_info users table (query_of name)) [
        | none ↦
            let checked = verify_async primitives password decoy_hash in
            (not_authenticated, table, s)
        | some user ↦
            admit now user (verify_async primitives password user.password) password ip user_agent
              sid secret table s
      ]

  -- A digest of the secret against the stored one.
  unfoldable pub verify_refresh_hash : String → String → Bool
  verify_refresh_hash secret hash = str_eq (hash_refresh_token secret) hash

  -- The steps behind a session that was found.
  unfoldable pub refresh_session :
      ℕ
      → ParsedRefreshToken
      → TypeSession
      → String
      → String
      → String
      → Table
      → State
      → Outcome AuthTokens × State
  refresh_session now parsed session ip user_agent secret table s =
      if not (verify_refresh_hash parsed.secret session.refresh_hash)
      then (not_authenticated, s)
      else elim (get_auth_info users table (by_id parsed.user_id)) [
        | none ↦ (not_authenticated, revoke server parsed.user_id parsed.sid s)
        | some user ↦
            if not user.active
            then (not_authenticated, revoke server parsed.user_id parsed.sid s)
            else let (tokens, s') = create_session now user ip user_agent parsed.sid secret s in
              (answer tokens, s')
      ]

  unfoldable pub refresh :
      ℕ → String → String → String → String → Table → State → Outcome AuthTokens × State
  refresh now refresh_token ip user_agent secret table s =
      elim (parse_refresh_token refresh_token) [
        | none ↦ (not_authenticated, s)
        | some parsed ↦ elim (get_session server now parsed.user_id parsed.sid s) [
          | none ↦ (not_authenticated, s)
          | some session ↦ refresh_session now parsed session ip user_agent secret table s
        ]
      ]

  unfoldable pub logout : String → String → State → State
  logout user_id session_id s = revoke server user_id session_id s

  -- Whether the session is there, and what is left where it is not.
  unfoldable pub validate_session : ℕ → String → String → State → Bool × State
  validate_session now user_id session_id s =
      if has server now user_id session_id s
      then (true, s)
      else (false, revoke_all server user_id s)

  unfoldable pub authenticate : ℕ → String → State → Outcome CtxUser × State
  authenticate now access_jwt s = elim (verify_access_token runtime now access_jwt) [
    | none ↦ (not_authenticated, s)
    | some jwt ↦
        let permissions = decode_scopes jwt.scope in
        let (exist, s') = validate_session now jwt.sub jwt.sid s in
        if exist
        then (
          answer (record {
            id = jwt.sub;
            sid = jwt.sid;
            admin = jwt.admin;
            permissions = permissions;
          }),
          s',
        )
        else (not_authenticated, s')
  ]
