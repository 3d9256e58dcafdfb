-- ===== src/Auth/Tests.antt =====
-- Sign-in and sessions of a concrete user.
use text.Mathlib.Text.{◌==◌ as str_eq}
use text.Mathlib.TextEquality.{eq_iff}
use whisky_scrapper_node.Prelude.{
  distinct, String, ◌≡◌, ◌≢◌, ◌↔◌, ◌⊎◌, refl, Option, none, some, true, false, ◌||◌, [], ◌∷◌, any,
  all, split, join, arith,
}
use whisky_scrapper_node.Auth.Tokens.{
  ParsedRefreshToken, parts_of, parse_refresh_token, generate_refresh_token, allows, encode_scopes,
  decode_scopes,
}
use whisky_scrapper_node.Auth.Tokens.Refresh.{Plain, parse_refresh_token_iff}
use whisky_scrapper_node.Auth.Tokens.Scopes.{is_for, allows-decode-encode}
use whisky_scrapper_node.Auth.Table.{shelf_server, empty_shelf, Shelf}
use whisky_scrapper_node.Auth.Sessions.{get_session, register, session_key, user_key}
use whisky_scrapper_node.Auth.Hash.{verify_async, needs_rehash}
use whisky_scrapper_node.Auth.Service.{
  verify_access_token, AuthUser, AuthTokens, AccessJwt, CtxUser, Outcome, answer, not_authenticated,
  not_authorized, query_of, get_auth_info, by_id, create_session, login, admit,
  upgrade_hash_if_needed, index_of_at, refresh, refresh_session, verify_refresh_hash, authenticate,
  logout,
}
use whisky_scrapper_node.Auth.Service.Rotation.{refresh_rotated}
use whisky_scrapper_node.Auth.Service.Revoked.{authenticate-logout}
use whisky_scrapper_node.Auth.Service.Login.{login_lem}
use whisky_scrapper_node.Auth.Service.Access.{needs_user_only, login_access}
use whisky_scrapper_node.Auth.Guards.{
  AuthPermissionMeta, mode_and, is_public, can_do, can_activate, is_public_resource,
}
use whisky_scrapper_node.Auth.Guards.Anonymous.{can_activate-anonymous}
use whisky_scrapper_node.Auth.Signed.{plain_runtime, one_user, ann}

texts_differ : (a b : String) → str_eq a b ≡ false → a ≢ b
texts_differ a b h e = cc ((eq_iff a b).1 e, h)

abbrev claimed : ParsedRefreshToken
claimed = record { user_id = "ann"; sid = "s1"; secret = "old" }

parse_refresh_token_iff_example : (parse_refresh_token "ann.s1.old" ≡ some claimed) ↔ (
    ((generate_refresh_token (λ s. s) "ann" "s1" "old").token ≡ "ann.s1.old")
    × Plain "ann"
    × Plain "s1"
    × Plain "old")
parse_refresh_token_iff_example = parse_refresh_token_iff (λ s. s) "ann.s1.old" claimed

four_parts : parse_refresh_token "ann.s1.old.x" ≡ none
unfolding parse_refresh_token parts_of split
four_parts = refl

allows-decode-encode_example :
    allows (decode_scopes (encode_scopes ann.permissions)) "product" "read"
    ≡ any (is_for "product" "read") ann.permissions
allows-decode-encode_example =
    allows-decode-encode ann.permissions "product" "read" ((refl, refl), ((refl, refl), tt))

abbrev admin_route : AuthPermissionMeta
admin_route = record {
  permissions = record { resource = "store"; action = some "sync"; can_do = none } ∷ [];
  mode = mode_and;
}

-- Ann signs in at time 10, as session s1.
abbrev signed_in : Outcome AuthTokens × Option AuthUser × Shelf
signed_in =
    login shelf_server one_user plain_runtime 10 "ann" "swordfish" "10.0.0.1" "browser" "s1" "old"
      (some ann) empty_shelf

login_lem_example :
    ((found : AuthUser) × (get_auth_info one_user (some ann) (query_of "ann") ≡ some found)
      × (verify_async plain_runtime.primitives "swordfish" found.password ≡ true)
      × (found.active ≡ true)
      × (signed_in.0
          ≡ answer
              (create_session shelf_server one_user plain_runtime 10 found "10.0.0.1" "browser" "s1"
                "old" empty_shelf).0))
    ⊎ ((found : AuthUser) × (get_auth_info one_user (some ann) (query_of "ann") ≡ some found)
        × (verify_async plain_runtime.primitives "swordfish" found.password ≡ true)
        × (found.active ≡ false)
        × (signed_in ≡ (not_authorized, some ann, empty_shelf)))
    ⊎ (((get_auth_info one_user (some ann) (query_of "ann") ≡ none)
          ⊎ ((found : AuthUser) × (get_auth_info one_user (some ann) (query_of "ann") ≡ some found)
              × (verify_async plain_runtime.primitives "swordfish" found.password ≡ false)))
        × (signed_in ≡ (not_authenticated, some ann, empty_shelf)))
login_lem_example =
    login_lem shelf_server one_user plain_runtime 10 "ann" "swordfish" "10.0.0.1" "browser" "s1"
      "old" (some ann) empty_shelf

-- Ann uses her tokens at time 50, and exchanges the refresh token at time 60.
abbrev ann_tokens : AuthTokens
ann_tokens =
    (create_session shelf_server one_user plain_runtime 10 ann "10.0.0.1" "browser" "s1" "old"
      empty_shelf).0

abbrev ann_shelf : Shelf
ann_shelf =
    (create_session shelf_server one_user plain_runtime 10 ann "10.0.0.1" "browser" "s1" "old"
      empty_shelf).1

ann_login : signed_in ≡ (answer ann_tokens, some ann, ann_shelf)
unfolding login admit get_auth_info verify_async needs_rehash upgrade_hash_if_needed index_of_at
ann_login = refl

found_ann : get_auth_info one_user (some ann) (query_of "ann") ≡ some ann
unfolding get_auth_info index_of_at
found_ann = refl

login_access_example :
    (ctx : CtxUser) × (authenticate shelf_server one_user plain_runtime 50 ann_tokens.access
        ann_shelf
      ≡ (answer ctx, ann_shelf))
    × (ctx.id ≡ "ann")
    × (ctx.sid ≡ "s1")
    × ((r a : String)
        → can_do (some ctx) r (some a) true
          ≡ false || needs_user_only r || any (is_for r a) ann.permissions)
login_access_example =
    login_access shelf_server one_user plain_runtime 10 50 "ann" "swordfish" "10.0.0.1" "browser"
      "s1" "old" (some ann) (some ann) empty_shelf ann_shelf ann ann_tokens ann_login found_ann
      ((refl, refl), ((refl, refl), tt)) (omega arith) (omega arith) (omega arith)

can_activate-anonymous_example :
    (can_activate none admin_route ≡ is_public admin_route)
    × (is_public admin_route ≡ all is_public_resource admin_route.permissions)
can_activate-anonymous_example = can_activate-anonymous admin_route

abbrev exchanged : Outcome AuthTokens × Shelf
exchanged =
    refresh shelf_server one_user plain_runtime 60 "ann.s1.old" "10.0.0.1" "browser" "new"
      (some ann) ann_shelf

abbrev new_tokens : AuthTokens
new_tokens =
    (create_session shelf_server one_user plain_runtime 60 ann "10.0.0.1" "browser" "s1" "new"
      ann_shelf).0

abbrev new_shelf : Shelf
new_shelf =
    (create_session shelf_server one_user plain_runtime 60 ann "10.0.0.1" "browser" "s1" "new"
      ann_shelf).1

ann_refresh : exchanged ≡ (answer new_tokens, new_shelf)
unfolding refresh parse_refresh_token parts_of split get_session create_session register session_key
    join user_key refresh_session verify_refresh_hash generate_refresh_token get_auth_info
ann_refresh = refl

ann_parsed : parse_refresh_token "ann.s1.old" ≡ some claimed
unfolding parse_refresh_token parts_of split
ann_parsed = refl

found_by_id : get_auth_info one_user (some ann) (by_id "ann") ≡ some ann
unfolding get_auth_info
found_by_id = refl

refresh_rotated_example :
    (refresh shelf_server one_user plain_runtime 70 "ann.s1.old" "10.0.0.9" "curl" "x"
        (some ann)
        new_shelf
      ≡ (not_authenticated, new_shelf))
    × (parse_refresh_token new_tokens.refresh
        ≡ some (record { user_id = "ann"; sid = "s1"; secret = "new" }))
    × (next : AuthTokens) × (s : Shelf) × (refresh shelf_server one_user plain_runtime 70
          new_tokens.refresh "10.0.0.9" "curl" "x"
          (some ann)
          new_shelf
        ≡ (answer next, s))
refresh_rotated_example =
    refresh_rotated shelf_server one_user plain_runtime 60 70 "ann.s1.old" "10.0.0.1" "browser"
      "new" (some ann) ann_shelf new_shelf new_tokens "10.0.0.9" "curl" "x" (some ann) claimed ann
      ann_refresh ann_parsed (texts_differ "old" "new" refl)
      (omega arith, texts_differ "new" "" refl) (omega arith) found_by_id refl

abbrev ann_jwt : AccessJwt
ann_jwt = record { sub = "ann"; sid = "s1"; admin = false; scope = encode_scopes ann.permissions }

ann_read : verify_access_token plain_runtime 50 ann_tokens.access ≡ some ann_jwt
unfolding create_session encode_scopes join distinct
ann_read = refl

authenticate-logout_example :
    let after =
      authenticate shelf_server one_user plain_runtime 50 ann_tokens.access
        (logout shelf_server one_user plain_runtime "ann" "s1" ann_shelf) in
    (after.0 ≡ not_authenticated)
    × ((sid : String) → get_session shelf_server 50 "ann" sid after.1 ≡ none)
    × (get_session shelf_server 50 "bob" "s2" after.1
        ≡ get_session shelf_server 50 "bob" "s2" ann_shelf)
authenticate-logout_example =
    authenticate-logout shelf_server one_user plain_runtime 50 ann_tokens.access ann_jwt ann_shelf
      "bob" "s2" ann_read (omega arith, omega arith) (omega arith) (texts_differ "ann" "bob" refl)

abbrev ann_ctx : CtxUser
ann_ctx = record {
  id = "ann";
  sid = "s1";
  admin = false;
  permissions = decode_scopes ann_jwt.scope;
}
