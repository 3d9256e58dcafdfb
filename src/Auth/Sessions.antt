-- ===== src/Auth/Sessions.antt =====
-- The session store (domain/auth/services/auth-session.service.ts). The listing of a user's sessions
-- is left out.
pub mod Keys
use whisky_scrapper_node.Prelude.{ℕ, String, ◌≡◌, ◌≢◌, Option, Bool, List, [], ◌∷◌, join}
use whisky_scrapper_node.Auth.Server.{TypeSession, Score, is_some, SessionServer}

abbrev pub prefix : String
prefix = "auth:session"

unfoldable pub user_key : String → String
user_key user_id = join ":" (prefix ∷ user_id ∷ [])

unfoldable pub session_key : String → String → String
session_key user_id session_id = join ":" (user_key user_id ∷ session_id ∷ [])

unfoldable pub registry_key : String → String
registry_key user_id = join ":" (user_key user_id ∷ "registry" ∷ [])

module _ (server : SessionServer) where
  open server use {State, get, set, del, zadd, zrem, scan_del}

  -- `expiresEpochMs ?? -1`, and `PXAT` where it is given. Both commands stand in one transaction.
  unfoldable pub register : String → TypeSession → Score → State → State
  register user_id session expires s =
      let key = session_key user_id session.sid in
      zadd (set s key session expires) (registry_key user_id) expires key

  unfoldable pub has : ℕ → String → String → State → Bool
  has now user_id session_id s = is_some (get s now (session_key user_id session_id))

  unfoldable pub get_session : ℕ → String → String → State → Option TypeSession
  get_session now user_id session_id s = get s now (session_key user_id session_id)

  unfoldable pub revoke : String → String → State → State
  revoke user_id session_id s =
      let key = session_key user_id session_id in zrem (del s key) (registry_key user_id) (key ∷ [])

  -- One node.
  unfoldable pub revoke_all : String → State → State
  revoke_all user_id s = scan_del s (join ":" (user_key user_id ∷ "*" ∷ []))
