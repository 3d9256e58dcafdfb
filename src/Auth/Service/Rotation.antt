-- ===== src/Auth/Service/Rotation.antt =====
-- A refresh replaces the refresh token.
use text.Mathlib.Text.{◌==◌ as str_eq}
use text.Mathlib.TextEquality.{eq_iff}
use whisky_scrapper_node.Prelude.{
  ℕ, String, ◌+◌, ◌*◌, ◌<◌, ◌≡◌, ◌≢◌, inl, inr, refl, sym, ap, ◌∙◌, Option, none, some, true,
  if◌then◌else◌, Bool-cases, Option-cases, arith, lt→ltb,
}
use whisky_scrapper_node.Auth.Tokens.{
  ParsedRefreshToken, parse_refresh_token, generate_refresh_token,
}
use whisky_scrapper_node.Auth.Tokens.Refresh.{Plain, parse_refresh_token_iff}
use whisky_scrapper_node.Auth.Server.{TypeSession, at, SessionServer}
use whisky_scrapper_node.Auth.Sessions.{get_session}
use whisky_scrapper_node.Auth.Sessions.Keys.{get_session-register_self}
use whisky_scrapper_node.Auth.Service.{
  AuthUser, AuthTokens, by_id, Users, Runtime, answer, not_authenticated, get_auth_info,
  create_session, verify_refresh_hash, refresh_session, refresh,
}

module _ (server : SessionServer) (users : Users) (runtime : Runtime) where
  open server use {State}
  open users use {Table}
  open runtime use {hash_refresh_token, refresh_expires_in_sec}

  -- What a refresh that was answered found.
  record Granted (now : ℕ) (token ip user_agent secret : String) (table : Table) (s s' : State)
      (tokens : AuthTokens) : Type 0 where
    parsed : ParsedRefreshToken
    user : AuthUser
    reads : parse_refresh_token token ≡ some parsed
    found : get_auth_info users table (by_id parsed.user_id) ≡ some user
    made :
        create_session server users runtime now user ip user_agent parsed.sid secret s
        ≡ (tokens, s')

  refresh_session-inv :
      (now : ℕ) (token : String) (p : ParsedRefreshToken) (v : TypeSession)
      (ip user_agent secret : String) (table : Table) (s s' : State) (tokens : AuthTokens)
      → parse_refresh_token token ≡ some p
      → refresh_session server users runtime now p v ip user_agent secret table s
        ≡ (answer tokens, s')
      → Granted now token ip user_agent secret table s s' tokens
  unfolding refresh_session
  refresh_session-inv now token p v ip user_agent secret table s s' tokens reads h =
      elim (Bool-cases (verify_refresh_hash server users runtime p.secret v.refresh_hash)) [
        | inr bad ↦ cc (rw (bad, refresh_session) at h)
        | inl ok ↦ elim (Option-cases (get_auth_info users table (by_id p.user_id))) [
          | inl e ↦ cc (rw (ok, refresh_session, e) at h)
          | inr (u, e) ↦ elim (Bool-cases u.active) [
            | inr idle ↦ cc (rw (ok, refresh_session, e, idle) at h)
            | inl active ↦ record {
              parsed = p;
              user = u;
              reads = reads;
              found = e;
              made = cc (rw (ok, refresh_session, e, active) at h);
            }
          ]
        ]
      ]

  refresh-inv :
      (now : ℕ) (token ip user_agent secret : String) (table : Table) (s s' : State)
      (tokens : AuthTokens)
      → refresh server users runtime now token ip user_agent secret table s ≡ (answer tokens, s')
      → Granted now token ip user_agent secret table s s' tokens
  unfolding refresh
  refresh-inv now token ip user_agent secret table s s' tokens h =
      elim (Option-cases (parse_refresh_token token)) [
        | inl e ↦ cc (rw (e, refresh) at h)
        | inr (p, e) ↦ elim (Option-cases (get_session server now p.user_id p.sid s)) [
          | inl missing ↦ cc (rw (e, refresh, missing) at h)
          | inr (v, there) ↦
              refresh_session-inv now token p v ip user_agent secret table s s' tokens e
                (rw (e, refresh, there) at h)
        ]
      ]

  -- The session that was created, while it lives.
  pub created_session :
      (now later : ℕ) (u : AuthUser) (ip user_agent sid secret : String) (s : State)
      → later < now + refresh_expires_in_sec * 1000
      → (v : TypeSession) × (get_session server later u.id sid
            (create_session server users runtime now u ip user_agent sid secret s).1
          ≡ some v)
        × (v.refresh_hash ≡ hash_refresh_token secret)
  unfolding create_session generate_refresh_token
  created_session now later u ip user_agent sid secret s h =
      let expires = now + refresh_expires_in_sec * 1000 in
      let payload : TypeSession = record {
        sid = sid;
        ip = ip;
        user_agent = user_agent;
        expires = expires;
        refresh_hash = hash_refresh_token secret;
      } in
      (
        payload,
        get_session-register_self server later u.id payload (at expires) s
            ∙ ap (λ b. if b then some payload else none) (lt→ltb later expires h),
        refl,
      )

  created_refresh :
      (now : ℕ) (u : AuthUser) (ip user_agent sid secret : String) (s : State)
      → Plain u.id
      → Plain sid
      → Plain secret
      → parse_refresh_token
          (create_session server users runtime now u ip user_agent sid secret s).0.refresh
        ≡ some (record { user_id = u.id; sid = sid; secret = secret })
  unfolding create_session
  created_refresh now u ip user_agent sid secret s hu hi hs =
      (parse_refresh_token_iff hash_refresh_token _ _).1 (refl, hu, hi, hs)

  found_id :
      (table : Table) (i : String) (u : AuthUser)
      → get_auth_info users table (by_id i) ≡ some u
      → u.id ≡ i
  unfolding get_auth_info
  found_id table i u h = elim (Bool-cases (str_eq i "")) [
    | inl e ↦ cc (rw e at h)
    | inr e ↦ users.find_by_id table i u (rw e at h)
  ]

  replayed :
      (later : ℕ) (token ip user_agent secret : String) (table : Table) (s : State)
      (p : ParsedRefreshToken) (v : TypeSession)
      → parse_refresh_token token ≡ some p
      → get_session server later p.user_id p.sid s ≡ some v
      → hash_refresh_token p.secret ≢ v.refresh_hash
      → refresh server users runtime later token ip user_agent secret table s
        ≡ (not_authenticated, s)
  unfolding refresh refresh_session verify_refresh_hash
  replayed later token ip user_agent secret table s p v reads there other =
      rw (reads, refresh)
        (rw there (ground (arith, eq_iff (hash_refresh_token p.secret) v.refresh_hash)))

  accepted :
      (later : ℕ) (token ip user_agent secret : String) (table : Table) (s : State)
      (p : ParsedRefreshToken) (v : TypeSession) (u : AuthUser)
      → parse_refresh_token token ≡ some p
      → get_session server later p.user_id p.sid s ≡ some v
      → v.refresh_hash ≡ hash_refresh_token p.secret
      → get_auth_info users table (by_id p.user_id) ≡ some u
      → u.active ≡ true
      → refresh server users runtime later token ip user_agent secret table s ≡ (
          let made = create_session server users runtime later u ip user_agent p.sid secret s in
          (answer made.0, made.1))
  unfolding refresh refresh_session verify_refresh_hash
  accepted later token ip user_agent secret table s p v u reads there same found active =
      rw (reads, refresh)
        (rw there (
          rw ((eq_iff (hash_refresh_token p.secret) v.refresh_hash).1 (sym same), refresh_session)
            (rw found (rw active refl))))

  there_as :
      (later : ℕ) (u u' i i' : String) (s s' : State) (v : TypeSession)
      → u ≡ u'
      → i ≡ i'
      → s ≡ s'
      → get_session server later u i s ≡ some v
      → get_session server later u' i' s' ≡ some v
  there_as later u u' i i' s s' v a b c there = cc

  read_as :
      (u u' i i' secret : String)
      → u ≡ u'
      → i ≡ i'
      → ◌≡◌ {A = Option ParsedRefreshToken}
          (some (record { user_id = u; sid = i; secret = secret }))
          (some (record { user_id = u'; sid = i'; secret = secret }))
  read_as u u' i i' secret a b = cc

  -- A refresh token was exchanged for new tokens; the digest of the new secret is another one, the
  -- secret is neither empty nor holds a dot, and the session has not expired since. The old token is
  -- refused then, and that changes nothing, so whoever holds it does not end the session. The new
  -- one is read as the same user and session, and is exchanged in turn where that user is active.
  pub refresh_rotated :
      (now later : ℕ) (token ip user_agent secret : String) (table : Table) (s s' : State)
      (tokens : AuthTokens) (ip' user_agent' secret' : String) (table' : Table)
      (p : ParsedRefreshToken) (u : AuthUser)
      → refresh server users runtime now token ip user_agent secret table s ≡ (answer tokens, s')
      → parse_refresh_token token ≡ some p
      → hash_refresh_token p.secret ≢ hash_refresh_token secret
      → Plain secret
      → later < now + refresh_expires_in_sec * 1000
      → get_auth_info users table' (by_id p.user_id) ≡ some u
      → u.active ≡ true
      → (refresh server users runtime later token ip' user_agent' secret' table' s'
          ≡ (not_authenticated, s'))
        × (parse_refresh_token tokens.refresh
            ≡ some (record { user_id = p.user_id; sid = p.sid; secret = secret }))
        × (next : AuthTokens) × (s'' : State) × (refresh server users runtime later tokens.refresh
              ip' user_agent' secret' table' s'
            ≡ (answer next, s''))
  refresh_rotated now later token ip user_agent secret table s s' tokens ip' user_agent' secret'
        table' p u h reads other plain live found active =
      let g = refresh-inv now token ip user_agent secret table s s' tokens h in
      let same_p : g.parsed ≡ p = cc (g.reads, reads) in
      let (_, hu, hi, _) = (parse_refresh_token_iff hash_refresh_token token p).0 reads in
      let same_u : g.user.id ≡ p.user_id =
        found_id table g.parsed.user_id g.user g.found
        ∙ ap (λ (q : ParsedRefreshToken). q.user_id) same_p in
      let same_i : g.parsed.sid ≡ p.sid = ap (λ (q : ParsedRefreshToken). q.sid) same_p in
      let (v, there, digest) =
        created_session now later g.user ip user_agent g.parsed.sid secret s live in
      let here : get_session server later p.user_id p.sid s' ≡ some v =
        there_as later _ p.user_id _ p.sid _ s' v same_u same_i
          (ap (λ (m : AuthTokens × State). m.1) g.made) there in
      let new : parse_refresh_token tokens.refresh
          ≡ some (record { user_id = p.user_id; sid = p.sid; secret = secret }) =
        ap (λ (m : AuthTokens × State). parse_refresh_token m.0.refresh) (sym g.made)
        ∙ created_refresh now g.user ip user_agent g.parsed.sid secret s (rw same_u hu)
            (rw same_i hi) plain
        ∙ read_as _ p.user_id _ p.sid secret same_u same_i in
      let made = create_session server users runtime later u ip' user_agent' p.sid secret' s' in
      (
        replayed later token ip' user_agent' secret' table' s' p v reads here
            (λ e. other (e ∙ digest)),
        new,
        made.0,
        made.1,
        accepted later tokens.refresh ip' user_agent' secret' table' s'
            (record { user_id = p.user_id; sid = p.sid; secret = secret }) v u new here digest found
            active,
      )
