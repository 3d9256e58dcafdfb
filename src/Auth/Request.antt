-- ===== src/Auth/Request.antt =====
-- A request through both guards (app/guards/auth-jwt.guard.ts, then permission.guard.ts).
pub mod Guarded
use text.Mathlib.Text.{◌==◌ as str_eq}
use whisky_scrapper_node.Prelude.{ℕ, String, Option, none, some, Bool, true, false, if◌then◌else◌}
use whisky_scrapper_node.Auth.Server.{SessionServer}
use whisky_scrapper_node.Auth.Service.{
  CtxUser, Users, Runtime, Outcome, answer, not_authenticated, not_authorized, authenticate,
}
use whisky_scrapper_node.Auth.Guards.{AuthPermissionMeta, is_public, can_activate}

-- `if (!token)`
abbrev pub given : Option String → Option String
given none = none
given (some token) = if str_eq token "" then none else some token

module _ (server : SessionServer) (users : Users) (runtime : Runtime) where
  open server use {State}

  unfoldable pub verify_request : ℕ → Option String → State → Outcome CtxUser × State
  verify_request now token s = elim (given token) [
    | none ↦ (not_authenticated, s)
    | some access ↦ authenticate server users runtime now access s
  ]

  -- `catch(() => true)` on a public resource. The user is the one of the request from here on.
  abbrev pub tolerated : Bool → Outcome CtxUser → Outcome (Option CtxUser)
  tolerated public (answer user) = answer (some user)
  tolerated true not_authenticated = answer none
  tolerated true not_authorized = answer none
  tolerated false not_authenticated = not_authenticated
  tolerated false not_authorized = not_authorized

  -- `AuthJwtGuard.canActivate`, of a request that no user is known of yet.
  unfoldable pub jwt_can_activate :
      ℕ → Bool → Option String → State → Outcome (Option CtxUser) × State
  jwt_can_activate now public token s =
      let verified = verify_request now token s in (tolerated public verified.0, verified.1)

  -- Whether the handler is reached, and for whom.
  unfoldable pub guarded :
      ℕ → AuthPermissionMeta → Option String → State → Outcome (Option CtxUser) × State
  guarded now meta token s =
      let (checked, s') = jwt_can_activate now (is_public meta) token s in
      elim checked [
        | not_authenticated ↦ (not_authenticated, s')
        | not_authorized ↦ (not_authorized, s')
        | answer user ↦ if can_activate user meta then (answer user, s') else (not_authorized, s')
      ]
