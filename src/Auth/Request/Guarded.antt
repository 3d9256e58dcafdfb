-- ===== src/Auth/Request/Guarded.antt =====
-- Which requests reach their handler.
use whisky_scrapper_node.Prelude.{ℕ, String, ◌≡◌, ◌<◌, ◌+◌, Option, true, if◌then◌else◌}
use whisky_scrapper_node.Auth.Tokens.{decode_scopes}
use whisky_scrapper_node.Auth.Server.{is_some, SessionServer}
use whisky_scrapper_node.Auth.Sessions.{get_session}
use whisky_scrapper_node.Auth.Service.{
  AccessJwt, CtxUser, Users, Runtime, Outcome, answer, not_authenticated, not_authorized,
}
use whisky_scrapper_node.Auth.Guards.{AuthPermissionMeta, can_activate}

module _ (server : SessionServer) (users : Users) (runtime : Runtime) where
  open server use {State}

  -- The user of a request, as a token's claims state him.
  abbrev pub stated : AccessJwt → CtxUser
  stated jwt = record {
    id = jwt.sub;
    sid = jwt.sid;
    admin = jwt.admin;
    permissions = decode_scopes jwt.scope;
  }

  -- What authentication found where it answered: a token that was signed for claims and has not
  -- expired, whose session is stored, and the user of those claims.
  pub record Found (now : ℕ) (access : String) (s s' : State) (user : CtxUser) : Type 0 where
    pub jwt : AccessJwt
    pub signed_at : ℕ
    pub signed : access ≡ runtime.sign signed_at jwt
    pub unexpired : now < signed_at + runtime.access_expires_in_ms
    pub live : is_some (get_session server now jwt.sub jwt.sid s) ≡ true
    pub same : user ≡ stated jwt
    pub kept : s' ≡ s

  -- What the second guard makes of the first one's answer.
  abbrev decided :
      AuthPermissionMeta → Outcome (Option CtxUser) → State → Outcome (Option CtxUser) × State
  decided meta checked s = elim checked [
    | not_authenticated ↦ (not_authenticated, s)
    | not_authorized ↦ (not_authorized, s)
    | answer user ↦ if can_activate user meta then (answer user, s) else (not_authorized, s)
  ]
