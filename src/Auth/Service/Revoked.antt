-- ===== src/Auth/Service/Revoked.antt =====
-- What the token of a session that is gone does.
use whisky_scrapper_node.Prelude.{ℕ, String, ◌≡◌, ◌≢◌, refl, ap, ◌∙◌, none, some, Lacks}
use whisky_scrapper_node.Auth.Server.{SessionServer}
use whisky_scrapper_node.Auth.Sessions.{has, get_session, revoke, revoke_all}
use whisky_scrapper_node.Auth.Sessions.Keys.{
  Plain, same_user, get_session-revoke_self, get_session-revoke_ne, get_session-revoke_all_self,
  get_session-revoke_all_ne,
}
use whisky_scrapper_node.Auth.Service.{
  verify_access_token, AccessJwt, CtxUser, Users, Runtime, Outcome, not_authenticated,
  validate_session, authenticate, logout,
}

module _ (server : SessionServer) (users : Users) (runtime : Runtime) where
  open server use {State}

  authenticate-gone :
      (now : ℕ) (access : String) (jwt : AccessJwt) (s : State)
      → verify_access_token runtime now access ≡ some jwt
      → get_session server now jwt.sub jwt.sid s ≡ none
      → authenticate server users runtime now access s
        ≡ (not_authenticated, revoke_all server jwt.sub s)
  unfolding authenticate validate_session has get_session
  authenticate-gone now access jwt s reads gone = rw (reads, authenticate) (rw gone refl)

  -- A user was signed out of a session, by a request or by an administrator. An access token of that
  -- session that has not expired is refused, and presenting it ends every session of the user; the
  -- sessions of another user are as they were. User ids hold no colon and no character of a pattern.
  pub authenticate-logout :
      (now : ℕ) (access : String) (jwt : AccessJwt) (s : State) (user' sid' : String)
      → verify_access_token runtime now access ≡ some jwt
      → Plain jwt.sub
      → Lacks ":" user'
      → jwt.sub ≢ user'
      → let after =
          authenticate server users runtime now access
            (logout server users runtime jwt.sub jwt.sid s) in
        (after.0 ≡ not_authenticated)
        × ((sid : String) → get_session server now jwt.sub sid after.1 ≡ none)
        × (get_session server now user' sid' after.1 ≡ get_session server now user' sid' s)
  unfolding logout
  authenticate-logout now access jwt s user' sid' reads plain lacks other =
      let e =
        authenticate-gone now access jwt (revoke server jwt.sub jwt.sid s) reads
          (get_session-revoke_self server now jwt.sub jwt.sid s) in
      (
        ap (λ (r : Outcome CtxUser × State). r.0) e,
        (λ sid.
            ap (λ (r : Outcome CtxUser × State). get_session server now jwt.sub sid r.1) e
            ∙ get_session-revoke_all_self server now jwt.sub sid (revoke server jwt.sub jwt.sid s)
                plain.1),
        ap (λ (r : Outcome CtxUser × State). get_session server now user' sid' r.1) e
            ∙ get_session-revoke_all_ne server now jwt.sub user' sid'
                (revoke server jwt.sub jwt.sid s) plain.1 plain.0 lacks other
            ∙ get_session-revoke_ne server now jwt.sub jwt.sid user' sid' s
                (λ same. other (same_user jwt.sub jwt.sid user' sid' plain.0 lacks same)),
      )
