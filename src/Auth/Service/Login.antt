-- ===== src/Auth/Service/Login.antt =====
-- What signing in answers, and what the tokens then allow.
use whisky_scrapper_node.Prelude.{
  ℕ, String, ◌≡◌, ◌⊎◌, inl, inr, refl, none, some, true, false, Bool-cases, Option-cases,
}
use whisky_scrapper_node.Auth.Server.{SessionServer}
use whisky_scrapper_node.Auth.Hash.{verify_async}
use whisky_scrapper_node.Auth.Service.{
  AuthUser, Users, Runtime, answer, not_authenticated, not_authorized, query_of, get_auth_info,
  create_session, admit, login,
}

module _ (server : SessionServer) (users : Users) (runtime : Runtime) where
  open server use {State}
  open users use {Table}

  -- Signing in has one of three ends. The login is unknown or the password is not the user's, which
  -- are answered alike; the password is right and the account deactivated, which only then is said;
  -- or the password is right and the account active, and tokens are answered. Where none are,
  -- nothing was changed.
  pub login_lem :
      (now : ℕ) (name password ip user_agent sid secret : String) (table : Table) (s : State)
      → let result =
          login server users runtime now name password ip user_agent sid secret table s in
        ((found : AuthUser) × (get_auth_info users table (query_of name) ≡ some found)
          × (verify_async runtime.primitives password found.password ≡ true)
          × (found.active ≡ true)
          × (result.0
              ≡ answer
                  (create_session server users runtime now found ip user_agent sid secret s).0))
        ⊎ ((found : AuthUser) × (get_auth_info users table (query_of name) ≡ some found)
            × (verify_async runtime.primitives password found.password ≡ true)
            × (found.active ≡ false)
            × (result ≡ (not_authorized, table, s)))
        ⊎ (((get_auth_info users table (query_of name) ≡ none)
              ⊎ ((found : AuthUser) × (get_auth_info users table (query_of name) ≡ some found)
                  × (verify_async runtime.primitives password found.password ≡ false)))
            × (result ≡ (not_authenticated, table, s)))
  unfolding login admit
  login_lem now name password ip user_agent sid secret table s =
      elim (Option-cases (get_auth_info users table (query_of name))) [
        | inl e ↦ inr (inr (inl e, rw (e, login) refl))
        | inr (u, e) ↦ elim (Bool-cases (verify_async runtime.primitives password u.password)) [
          | inr wrong ↦ inr (inr (inr (u, e, wrong), rw (e, login) (rw (wrong, admit) refl)))
          | inl right ↦ elim (Bool-cases u.active) [
            | inr idle ↦
                inr (inl (u, e, right, idle, rw (e, login) (rw (right, admit) (rw idle refl))))
            | inl active ↦
                inl (u, e, right, active, rw (e, login) (rw (right, admit) (rw active refl)))
          ]
        ]
      ]
