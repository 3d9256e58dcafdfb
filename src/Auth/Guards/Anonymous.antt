-- ===== src/Auth/Guards/Anonymous.antt =====
-- What a request without a user may do.
use whisky_scrapper_node.Prelude.{
  ◌≡◌, refl, none, Bool, true, false, ◌&&◌, ◌||◌, List, [], ◌∷◌, all, any, arith,
}
use whisky_scrapper_node.Auth.Guards.{
  PermissionMode, mode_and, mode_or, AuthPermission, AuthPermissionMeta, is_public_resource,
  is_public_from, is_public, check, can_do, check_permission, can_activate,
}

is_public_from_and :
    (b : Bool) (ps : List AuthPermission)
    → is_public_from mode_and b ps ≡ b && all is_public_resource ps
is_public_from_and b [] = ground arith
is_public_from_and b (p ∷ ps) = ground (arith, is_public_from_and (b && is_public_resource p) ps)

is_public_from_or :
    (b : Bool) (ps : List AuthPermission)
    → is_public_from mode_or b ps ≡ b || any is_public_resource ps
is_public_from_or b [] = ground arith
is_public_from_or b (p ∷ ps) = ground (arith, is_public_from_or (b || is_public_resource p) ps)

all_public :
    (ps : List AuthPermission)
    → all (check_permission none) ps ≡ true
    → all is_public_resource ps ≡ true
unfolding check_permission can_do
all_public [] h = refl
all_public (p ∷ ps) h = ground (arith, all_public ps)

any_public :
    (ps : List AuthPermission)
    → any is_public_resource ps ≡ false
    → any (check_permission none) ps ≡ false
unfolding check_permission can_do
any_public [] h = refl
any_public (p ∷ ps) h = ground (arith, any_public ps)

anonymous :
    (mode : PermissionMode) (ps : List AuthPermission)
    → (can_activate none (record { permissions = ps; mode = mode })
        ≡ is_public (record { permissions = ps; mode = mode }))
      × (is_public (record { permissions = ps; mode = mode }) ≡ elim mode [
        | mode_and ↦ all is_public_resource ps
        | mode_or ↦ any is_public_resource ps
      ])
unfolding can_activate check is_public
anonymous mode_and ps =
    (ground (arith, is_public_from_and true ps, all_public ps), is_public_from_and true ps)
anonymous mode_or ps =
    (ground (arith, is_public_from_or false ps, any_public ps), is_public_from_or false ps)

-- Without a user, a request is let through exactly when its route is public: with every permission
-- required, when all of them are for the public resource; with one of them enough, when one of them
-- is. No predicate of a route, and no permission for another resource, lets it through.
pub can_activate-anonymous :
    (meta : AuthPermissionMeta)
    → (can_activate none meta ≡ is_public meta)
      × (is_public meta ≡ elim meta.mode [
        | mode_and ↦ all is_public_resource meta.permissions
        | mode_or ↦ any is_public_resource meta.permissions
      ])
unfolding can_activate check is_public
can_activate-anonymous meta = anonymous meta.mode meta.permissions
