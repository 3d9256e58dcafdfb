-- ===== src/Auth/Sessions/Keys.antt =====
-- Which sessions an operation touches.
use Prim.Native.String
use text.Mathlib.TextLemmas.{
  nil-append, cons-append, append-nil, append_assoc, append_cancel_left, tail-eq_of_cons-eq,
}
use mathlib.Core.List.{head-eq_of_cons-eq as head_of, tail-eq_of_cons-eq as tail_of}
use whisky_scrapper_node.Prelude.{
  ℕ, String, ◌≡◌, ◌≢◌, sym, ap, ◌∙◌, none, some, [], ◌∷◌, arith, if◌then◌else◌, join, split,
  split-join, cut, cut_first, Lacks,
}
use whisky_scrapper_node.Auth.Server.{TypeSession, Score, lives, NoGlob, SessionServer}
use whisky_scrapper_node.Auth.Sessions.{
  prefix, user_key, session_key, register, get_session, revoke, revoke_all,
}

colon : (a b : String) → join ":" (a ∷ b ∷ []) ≡ String.◌++◌ a (String.◌∷◌ ":" b)
unfolding join
colon a b = ap (λ t. String.◌++◌ a (String.◌∷◌ ":" t)) (append-nil b)

session_key-colon :
    (u i : String) → session_key u i ≡ String.◌++◌ prefix (String.◌∷◌ ":" (join ":" (u ∷ i ∷ [])))
unfolding session_key user_key
session_key-colon u i =
    colon (join ":" (prefix ∷ u ∷ [])) i
    ∙ ap (λ t. String.◌++◌ t (String.◌∷◌ ":" i)) (colon prefix u)
    ∙ append_assoc prefix (String.◌∷◌ ":" u) (String.◌∷◌ ":" i)
    ∙ ap (String.◌++◌ prefix)
        (cons-append ":" u (String.◌∷◌ ":" i) ∙ ap (String.◌∷◌ ":") (sym (colon u i)))

-- A user and a session, none of which holds a colon, have a key of their own.
pub session_key-inj :
    (u i u' i' : String)
    → Lacks ":" u
    → Lacks ":" u'
    → Lacks ":" i
    → Lacks ":" i'
    → session_key u i ≡ session_key u' i'
    → (u ≡ u') × (i ≡ i')
session_key-inj u i u' i' lu lu' li li' e =
    let same : join ":" (u ∷ i ∷ []) ≡ join ":" (u' ∷ i' ∷ []) =
      tail-eq_of_cons-eq (
        append_cancel_left prefix _ _
          (sym (session_key-colon u i) ∙ e ∙ session_key-colon u' i')) in
    let parts : u ∷ i ∷ [] ≡ u' ∷ i' ∷ [] =
      sym (split-join ":" u (i ∷ []) (lu, (li, tt)))
      ∙ ap (split ":") same
      ∙ split-join ":" u' (i' ∷ []) (lu', (li', tt)) in
    (head_of parts, head_of (tail_of parts))

first_user :
    (u i u' rest : String)
    → Lacks ":" u
    → Lacks ":" u'
    → session_key u i ≡ join ":" (user_key u' ∷ rest ∷ [])
    → u ≡ u'
unfolding session_key
first_user u i u' rest l l' e =
    let same : join ":" (u ∷ i ∷ []) ≡ join ":" (u' ∷ rest ∷ []) = tail-eq_of_cons-eq (
      append_cancel_left prefix _ _
        (sym (session_key-colon u i) ∙ e ∙ session_key-colon u' rest)) in
    sym (cut_first ":" u i l)
    ∙ ap (λ t. (cut ":" t).0) (sym (colon u i) ∙ same ∙ colon u' rest)
    ∙ cut_first ":" u' rest l'

-- Keys of two users differ.
pub same_user :
    (u i u' i' : String) → Lacks ":" u → Lacks ":" u' → session_key u i ≡ session_key u' i' → u ≡ u'
unfolding session_key
same_user u i u' i' l l' e = first_user u i u' i' l l' e

NoGlob-append : (s t : String) → NoGlob s → NoGlob t → NoGlob (String.◌++◌ s t)
NoGlob-append String.[] t h k = rw nil-append k
NoGlob-append (String.◌∷◌ c s) t h k = rw (cons-append c s t) (h.0, NoGlob-append s t h.1 k)

user_key-NoGlob : (u : String) → NoGlob u → NoGlob (user_key u)
unfolding user_key
user_key-NoGlob u h =
    rw (colon prefix u) (NoGlob-append prefix (String.◌∷◌ ":" u) (omega arith) (omega arith, h))

-- A text that keys and patterns take as it is.
abbrev pub Plain : String → Type 0
Plain s = Lacks ":" s × NoGlob s

module _ (server : SessionServer) where
  open server use {State}

  pub get_session-register_self :
      (now : ℕ) (u : String) (v : TypeSession) (e : Score) (s : State)
      → get_session server now u v.sid (register server u v e s)
        ≡ (if lives e now then some v else none)
  unfolding get_session register
  get_session-register_self now u v e s =
      server.get-zadd _ now _ _ (session_key u v.sid) e
      ∙ server.get-set_self s now (session_key u v.sid) v e

  -- Another session, of the same user or another one.
  abbrev pub Apart : String → String → String → String → Type 0
  Apart u i u' i' = session_key u i ≢ session_key u' i'

  pub get_session-register_ne :
      (now : ℕ) (u : String) (v : TypeSession) (e : Score) (s : State) (u' i' : String)
      → Apart u v.sid u' i'
      → get_session server now u' i' (register server u v e s) ≡ get_session server now u' i' s
  unfolding get_session register
  get_session-register_ne now u v e s u' i' apart =
      server.get-zadd _ now _ _ (session_key u' i') e
      ∙ server.get-set_ne s now _ (session_key u' i') v e apart

  pub get_session-revoke_self :
      (now : ℕ) (u i : String) (s : State) → get_session server now u i (revoke server u i s) ≡ none
  unfolding get_session revoke
  get_session-revoke_self now u i s =
      server.get-zrem _ now _ (session_key u i) _ ∙ server.get-del_self s now (session_key u i)

  pub get_session-revoke_ne :
      (now : ℕ) (u i u' i' : String) (s : State)
      → Apart u i u' i'
      → get_session server now u' i' (revoke server u i s) ≡ get_session server now u' i' s
  unfolding get_session revoke
  get_session-revoke_ne now u i u' i' s apart =
      server.get-zrem _ now _ (session_key u' i') _
      ∙ server.get-del_ne s now _ (session_key u' i') apart

  pub get_session-revoke_all_self :
      (now : ℕ) (u i : String) (s : State)
      → NoGlob u
      → get_session server now u i (revoke_all server u s) ≡ none
  unfolding get_session revoke_all session_key
  get_session-revoke_all_self now u i s h =
      server.get-scan_del_self s now (user_key u) i (user_key-NoGlob u h)

  -- Nor does the end of a user's sessions touch those of another user.
  pub get_session-revoke_all_ne :
      (now : ℕ) (u u' i' : String) (s : State)
      → NoGlob u
      → Lacks ":" u
      → Lacks ":" u'
      → u ≢ u'
      → get_session server now u' i' (revoke_all server u s) ≡ get_session server now u' i' s
  unfolding get_session revoke_all
  get_session-revoke_all_ne now u u' i' s h l l' other =
      server.get-scan_del_ne s now (user_key u) (session_key u' i') (user_key-NoGlob u h)
        (λ rest e. other (sym (first_user u' i' u rest l' l e)))
