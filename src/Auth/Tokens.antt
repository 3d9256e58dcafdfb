-- ===== src/Auth/Tokens.antt =====
-- Refresh tokens and scopes as texts (domain/auth/services/auth-token.service.ts). SHA-256 is a
-- parameter, and so are the random bytes. A `Map` is the list of its entries, a `Set` that of its
-- items, in the order of insertion.
pub mod Refresh
pub mod Scopes
use Prim.Native.String
use text.Mathlib.Text.{◌==◌ as str_eq}
use whisky_scrapper_node.Prelude.{
  String, Option, none, some, Bool, false, ◌&&◌, ◌||◌, List, [], ◌∷◌, ◌++◌, map, if◌then◌else◌, any,
  distinct, split, join,
}

infixr 66 ◌++ₛ◌
abbrev pub ◌++ₛ◌ : String → String → String
s ++ₛ t = String.◌++◌ s t

pub record ParsedRefreshToken : Type 0 where
  pub user_id : String
  pub sid : String
  pub secret : String

-- The three parts, none of them empty.
unfoldable pub parts_of : List String → Option ParsedRefreshToken
parts_of [] = none
parts_of (u ∷ []) = none
parts_of (u ∷ i ∷ []) = none
parts_of (u ∷ i ∷ s ∷ []) =
    if str_eq u "" || str_eq i "" || str_eq s ""
    then none
    else some (record { user_id = u; sid = i; secret = s })
parts_of (u ∷ i ∷ s ∷ r ∷ rs) = none

unfoldable pub parse_refresh_token : String → Option ParsedRefreshToken
parse_refresh_token token = parts_of (split "." token)

pub record RefreshTokenOut : Type 0 where
  pub token : String
  pub hash : String

-- From the random secret.
unfoldable pub generate_refresh_token :
    (String → String) → String → String → String → RefreshTokenOut
generate_refresh_token hash_refresh_token user_id sid secret = record {
  token = join "." (user_id ∷ sid ∷ secret ∷ []);
  hash = hash_refresh_token secret;
}

pub record Permission : Type 0 where
  pub resource : String
  pub action : String

abbrev pub resources : List String
resources =
    "authenticated" ∷ "dashboard" ∷ "message" ∷ "permission" ∷ "preference" ∷ "producer" ∷ "product"
    ∷ "public" ∷ "quick_filter" ∷ "self" ∷ "session" ∷ "store" ∷ "user" ∷ []

abbrev pub actions : List String
actions =
    "create" ∷ "read" ∷ "update" ∷ "edit" ∷ "delete" ∷ "list" ∷ "logout" ∷ "sync" ∷ "review"
    ∷ "read_permissions" ∷ "set_permissions" ∷ []

abbrev pub scope_of : Permission → String
scope_of p = p.resource ++ₛ ":" ++ₛ p.action

unfoldable pub encode_scopes : List Permission → String
encode_scopes permissions = join " " (distinct (map scope_of permissions))

abbrev pub PermissionMap : Type 0
PermissionMap = List (String × List String)

-- `permissions.get(resource)?.has(action)`
abbrev pub allows : PermissionMap → String → String → Bool
allows [] resource action = false
allows ((k, set) ∷ m) resource action =
    if str_eq k resource then any (str_eq action) set else allows m resource action

abbrev pub add : String → List String → List String
add action set = if any (str_eq action) set then set else set ++ action ∷ []

unfoldable pub grant : String → String → PermissionMap → PermissionMap
grant resource action [] = (resource, action ∷ []) ∷ []
grant resource action ((k, set) ∷ m) =
    let rest = grant resource action m in
    if str_eq k resource then (k, add action set) ∷ m else (k, set) ∷ rest

-- One step of the reduction, on the parts of a scope.
unfoldable pub granted_by : List String → PermissionMap → PermissionMap
granted_by [] acc = acc
granted_by (resource ∷ []) acc = acc
granted_by (resource ∷ action ∷ rest) acc =
    if any (str_eq resource) resources && any (str_eq action) actions
    then grant resource action acc
    else acc

unfoldable pub decode_from : List String → PermissionMap → PermissionMap
decode_from [] acc = acc
decode_from (str ∷ strs) acc = decode_from strs (granted_by (split ":" str) acc)

unfoldable pub decode_scopes : String → PermissionMap
decode_scopes scope = decode_from (split " " scope) []
