-- ===== src/Auth/Service/Access.antt =====
-- What the tokens of a sign-in allow.
use text.Mathlib.Text.{◌==◌ as str_eq}
use whisky_scrapper_node.Prelude.{
  false, ℕ, String, ◌+◌, ◌*◌, ◌≤◌, ◌<◌, ◌≡◌, inl, inr, refl, sym, ap, ◌∙◌, some, Bool, true, ◌||◌,
  All, any, Bool-cases, arith,
}
use whisky_scrapper_node.Auth.Tokens.{allows, encode_scopes, decode_scopes}
use whisky_scrapper_node.Auth.Tokens.Scopes.{Known, is_for, allows-decode-encode}
use whisky_scrapper_node.Auth.Server.{is_some, SessionServer}
use whisky_scrapper_node.Auth.Sessions.{has, get_session}
use whisky_scrapper_node.Auth.Hash.{verify_async}
use whisky_scrapper_node.Auth.Service.{
  verify_access_token, AuthUser, AuthTokens, AccessJwt, CtxUser, Users, Runtime, answer, query_of,
  get_auth_info, create_session, admit, login, validate_session, authenticate,
}
use whisky_scrapper_node.Auth.Service.Rotation.{created_session}
use whisky_scrapper_node.Auth.Guards.{can_do}

-- The resource asks for no more than a user.
abbrev pub needs_user_only : String → Bool
needs_user_only r = str_eq r "public" || str_eq r "authenticated" || str_eq r "self"

can_do-permissions :
    (ctx : CtxUser) (r a : String)
    → can_do (some ctx) r (some a) true
      ≡ ctx.admin || needs_user_only r || allows ctx.permissions r a
unfolding can_do
can_do-permissions ctx r a = ground arith

module _ (server : SessionServer) (users : Users) (runtime : Runtime) where
  open server use {State}
  open users use {Table}

  authenticate-live :
      (now : ℕ) (access : String) (jwt : AccessJwt) (s : State)
      → verify_access_token runtime now access ≡ some jwt
      → is_some (get_session server now jwt.sub jwt.sid s) ≡ true
      → authenticate server users runtime now access s ≡ (
        answer (record {
          id = jwt.sub;
          sid = jwt.sid;
          admin = jwt.admin;
          permissions = decode_scopes jwt.scope;
        }),
        s,
      )
  unfolding authenticate validate_session has get_session
  authenticate-live now access jwt s reads live = rw (reads, authenticate) (rw live refl)

  login-inv :
      (now : ℕ) (name password ip user_agent sid secret : String) (table table' : Table)
      (s s' : State) (u : AuthUser) (tokens : AuthTokens)
      → login server users runtime now name password ip user_agent sid secret table s
        ≡ (answer tokens, table', s')
      → get_auth_info users table (query_of name) ≡ some u
      → create_session server users runtime now u ip user_agent sid secret s ≡ (tokens, s')
  unfolding login admit
  login-inv now name password ip user_agent sid secret table table' s s' u tokens h e =
      elim (Bool-cases (verify_async runtime.primitives password u.password)) [
        | inr wrong ↦ cc (rw (e, login, wrong, admit) at h)
        | inl right ↦ elim (Bool-cases u.active) [
          | inr idle ↦ cc (rw (e, login, right, admit, idle) at h)
          | inl active ↦ cc (rw (e, login, right, admit, active) at h)
        ]
      ]

  created_access :
      (now later : ℕ) (u : AuthUser) (ip user_agent sid secret : String) (s : State)
      → now ≤ later
      → later < now + runtime.access_expires_in_ms
      → verify_access_token runtime later
          (create_session server users runtime now u ip user_agent sid secret s).0.access
        ≡ some
            (record { sub = u.id; sid = sid; admin = u.admin; scope = encode_scopes u.permissions })
  unfolding create_session
  created_access now later u ip user_agent sid secret s h k =
      runtime.verify-sign false now later _ h k

  -- A user signed in, with permissions for resources and actions of the program. Until the access
  -- token or the session expires, the token is taken for that user and that session. It lets an
  -- action on a resource through, at a route whose predicate agrees, exactly when the user was an
  -- administrator, when the resource asks for a user only, or when one of the permissions that the
  -- user had is for them.
  pub login_access :
      (now later : ℕ) (name password ip user_agent sid secret : String) (table table' : Table)
      (s s' : State) (u : AuthUser) (tokens : AuthTokens)
      → login server users runtime now name password ip user_agent sid secret table s
        ≡ (answer tokens, table', s')
      → get_auth_info users table (query_of name) ≡ some u
      → All Known u.permissions
      → now ≤ later
      → later < now + runtime.access_expires_in_ms
      → later < now + runtime.refresh_expires_in_sec * 1000
      → (ctx : CtxUser) × (authenticate server users runtime later tokens.access s'
          ≡ (answer ctx, s'))
        × (ctx.id ≡ u.id)
        × (ctx.sid ≡ sid)
        × ((r a : String)
            → can_do (some ctx) r (some a) true
              ≡ u.admin || needs_user_only r || any (is_for r a) u.permissions)
  login_access now later name password ip user_agent sid secret table table' s s' u tokens h found
        known order fresh live =
      let made =
        login-inv now name password ip user_agent sid secret table table' s s' u tokens h found in
      let (v, there, _) =
        created_session server users runtime now later u ip user_agent sid secret s live in
      let ctx : CtxUser = record {
        id = u.id;
        sid = sid;
        admin = u.admin;
        permissions = decode_scopes (encode_scopes u.permissions);
      } in
      let done =
        authenticate-live later
          (create_session server users runtime now u ip user_agent sid secret s).0.access _
          (create_session server users runtime now u ip user_agent sid secret s).1
          (created_access now later u ip user_agent sid secret s order fresh) (ap is_some there) in
      (
        ctx,
        ap (λ (m : AuthTokens × State). authenticate server users runtime later m.0.access m.1)
              (sym made)
            ∙ done
            ∙ ap (λ (m : AuthTokens × State). (answer ctx, m.1)) made,
        refl,
        refl,
        (λ r a.
            can_do-permissions ctx r a
            ∙ ap (λ b. u.admin || needs_user_only r || b)
                (allows-decode-encode u.permissions r a known)),
      )
