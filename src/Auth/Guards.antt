-- ===== src/Auth/Guards.antt =====
-- The guard that authorizes a request (app/guards/permission.guard.ts) and the permissions that a
-- route declares (decorators/auth/permission.decorator.ts). What a predicate of a route says of the
-- request is a truth value.
pub mod Anonymous
use text.Mathlib.Text.{◌==◌ as str_eq}
use whisky_scrapper_node.Prelude.{
  String, Option, none, some, Bool, true, false, ◌&&◌, ◌||◌, List, [], ◌∷◌, if◌then◌else◌, all, any,
}
use whisky_scrapper_node.Auth.Tokens.{PermissionMap, allows}
use whisky_scrapper_node.Auth.Service.{CtxUser}

pub data PermissionMode : Type 0 where
  mode_and mode_or : PermissionMode

pub record AuthPermission : Type 0 where
  pub resource : String
  pub action : Option String
  pub can_do : Option Bool

pub record AuthPermissionMeta : Type 0 where
  pub permissions : List AuthPermission
  pub mode : PermissionMode

abbrev pub is_public_resource : AuthPermission → Bool
is_public_resource p = str_eq p.resource "public"

-- `isPublic`, by the loop over the permissions.
abbrev pub is_public_from : PermissionMode → Bool → List AuthPermission → Bool
is_public_from mode b [] = b
is_public_from mode_or b (p ∷ ps) = is_public_from mode_or (b || is_public_resource p) ps
is_public_from mode_and b (p ∷ ps) = is_public_from mode_and (b && is_public_resource p) ps

unfoldable pub is_public : AuthPermissionMeta → Bool
is_public meta =
    is_public_from meta.mode (elim meta.mode [ mode_and ↦ true | mode_or ↦ false ]) meta.permissions

-- `check`
unfoldable pub check : AuthPermissionMeta → (AuthPermission → Bool) → Bool
check meta cb = elim meta.mode [
  | mode_and ↦ all cb meta.permissions
  | mode_or ↦ any cb meta.permissions
]

-- `!!permissions.get(resource)`
abbrev pub has_scope : PermissionMap → String → Bool
has_scope [] resource = false
has_scope ((k, set) ∷ m) resource = if str_eq k resource then true else has_scope m resource

abbrev pub has_permission : CtxUser → String → Option String → Bool
has_permission user resource none = has_scope user.permissions resource
has_permission user resource (some action) = allows user.permissions resource action

unfoldable pub can_do : Option CtxUser → String → Option String → Bool → Bool
can_do none resource action says = if str_eq resource "public" then says else false
can_do (some user) resource action says =
    if user.admin
      || str_eq resource "public"
      || str_eq resource "authenticated"
      || str_eq resource "self"
    then says
    else says && has_permission user resource action

unfoldable pub check_permission : Option CtxUser → AuthPermission → Bool
check_permission user p =
    can_do user p.resource p.action (elim p.can_do [ none ↦ true | some says ↦ says ])

unfoldable pub can_activate : Option CtxUser → AuthPermissionMeta → Bool
can_activate user meta = if is_public meta then true else check meta (check_permission user)
