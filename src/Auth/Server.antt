-- ===== src/Auth/Server.antt =====
-- The commands of the Valkey server that the session store sends. The server is not part of the
-- repository, so it is a parameter: a state, the commands, and their documented behaviour. The
-- texts stored are sessions, written as JSON and read back; no key is a text and a sorted set.
use Prim.Native.Char.{code}
use whisky_scrapper_node.Prelude.{
  ℕ, String, ◌≡◌, ◌≢◌, Option, none, some, Bool, true, false, List, [], ◌∷◌, if◌then◌else◌, ltb,
  join,
}

pub record TypeSession : Type 0 where
  pub sid : String
  pub ip : String
  pub user_agent : String
  pub expires : ℕ
  pub refresh_hash : String

-- `expiresEpochMs ?? -1`: an absolute time, or a session that does not expire on its own.
pub data Score : Type 0 where
  never : Score
  at : ℕ → Score

-- What expires then is still there.
abbrev pub lives : Score → ℕ → Bool
lives never now = true
lives (at t) now = ltb now t

abbrev pub is_some : {A : Type 0} → Option A → Bool
is_some none = false
is_some (some a) = true

-- A character that a pattern gives no meaning.
abbrev pub NotGlob : ℕ → Type 0
NotGlob c = (c ≢ b'*') × (c ≢ b'?') × (c ≢ b'[') × (c ≢ 92)

abbrev pub NoGlob : String → Type 0
NoGlob String.[] = Unit
NoGlob (String.◌∷◌ c s) = NotGlob (code c) × NoGlob s

pub record SessionServer : Type 1 where
  pub State : Type 0
  pub get : State → ℕ → String → Option TypeSession
  pub set : State → String → TypeSession → Score → State
  pub del : State → String → State
  pub zadd : State → String → Score → String → State
  pub zrem : State → String → List String → State
  -- A scan for a pattern, deleting what it finds.
  pub scan_del : State → String → State
  pub get-set_self :
      (s : State) (now : ℕ) (key : String) (v : TypeSession) (e : Score)
      → get (set s key v e) now key ≡ (if lives e now then some v else none)
  pub get-set_ne :
      (s : State) (now : ℕ) (key key' : String) (v : TypeSession) (e : Score)
      → key ≢ key'
      → get (set s key v e) now key' ≡ get s now key'
  pub get-del_self : (s : State) (now : ℕ) (key : String) → get (del s key) now key ≡ none
  pub get-del_ne :
      (s : State) (now : ℕ) (key key' : String)
      → key ≢ key'
      → get (del s key) now key' ≡ get s now key'
  pub get-zadd :
      (s : State) (now : ℕ) (key member key' : String) (e : Score)
      → get (zadd s key e member) now key' ≡ get s now key'
  pub get-zrem :
      (s : State) (now : ℕ) (key key' : String) (members : List String)
      → get (zrem s key members) now key' ≡ get s now key'
  pub get-scan_del_self :
      (s : State) (now : ℕ) (p rest : String)
      → NoGlob p
      → get (scan_del s (join ":" (p ∷ "*" ∷ []))) now (join ":" (p ∷ rest ∷ [])) ≡ none
  pub get-scan_del_ne :
      (s : State) (now : ℕ) (p key : String)
      → NoGlob p
      → ((rest : String) → key ≢ join ":" (p ∷ rest ∷ []))
      → get (scan_del s (join ":" (p ∷ "*" ∷ []))) now key ≡ get s now key
