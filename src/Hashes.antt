-- ===== src/Hashes.antt =====
-- The hash commands of the Valkey server that the Lua scripts of the rate limiter and of the login
-- throttle call. The server is not part of the repository, so it is a parameter: a state, the
-- commands, and their documented behaviour. A numeric field is read back as the number written.
use text.Mathlib.Text.{◌==◌ as str_eq}
use text.Mathlib.TextEquality.{eq_iff}
use whisky_scrapper_node.Prelude.{
  ℕ, String, ◌≡◌, refl, ◌≢◌, ◌⊎◌, List, Option, none, some, arith, if◌then◌else◌, ◌&&◌, Bool-cases,
  inl, inr,
}

pub record HashServer : Type 1 where
  pub State : Type 0
  pub hget : State → String → String → Option ℕ
  pub hset : State → String → String → ℕ → State
  pub pexpire : State → String → ℕ → State
  pub del : State → String → State
  pub hget-hset_self :
      (s : State) (key field : String) (v : ℕ) → hget (hset s key field v) key field ≡ some v
  pub hget-hset_ne :
      (s : State) (key field key' field' : String) (v : ℕ)
      → (key ≢ key') ⊎ (field ≢ field')
      → hget (hset s key field v) key' field' ≡ hget s key' field'
  -- A lifetime takes no effect at the moment it is set.
  pub hget-pexpire :
      (s : State) (key : String) (ms : ℕ) (key' field : String)
      → hget (pexpire s key ms) key' field ≡ hget s key' field
  pub hget-del_self : (s : State) (key field : String) → hget (del s key) key field ≡ none
  pub hget-del_ne :
      (s : State) (key key' field : String)
      → key ≢ key'
      → hget (del s key) key' field ≡ hget s key' field

module _ (server : HashServer) where
  open server use {State, hget, hset, hget-hset_self, hget-hset_ne}

  -- A field of the hash that was written.
  pub hget-hset :
      (s : State) (key f f' : String) (v : ℕ)
      → hget (hset s key f v) key f' ≡ (if str_eq f f' then some v else hget s key f')
  hget-hset s key f f' v = elim (Bool-cases (str_eq f f')) [
    | inl same ↦ rw (same, (eq_iff f f').0 same) (hget-hset_self s key f' v)
    | inr other ↦
        rw other (hget-hset_ne s key f key f' v (inr (λ e. cc (other, (eq_iff f f').1 e))))
  ]

-- What becomes of one call of a script: its reply comes back in time; or it fails or times out,
-- after the server ran it or without.
pub data Delivery : Type 0 where
  answered lost_before lost_after : Delivery

-- What the driver hands back: something that is no array, or an array in which `none` stands for
-- a value that is not a number.
pub data Reply : Type 0 where
  not_array : Reply
  array : List (Option ℕ) → Reply

-- A server that keeps its hashes in a function, to run the scripts on.
abbrev pub Table : Type 0
Table = String → String → Option ℕ

abbrev pub table_set : Table → String → String → ℕ → Table
table_set t key field v k f = if str_eq key k && str_eq field f then some v else t k f

pub table_set_self :
    (t : Table) (key field : String) (v : ℕ) → table_set t key field v key field ≡ some v
table_set_self t key field v = ground (arith, eq_iff key key, eq_iff field field)

pub table_set_ne :
    (t : Table) (key field key' field' : String) (v : ℕ)
    → (key ≢ key') ⊎ (field ≢ field')
    → table_set t key field v key' field' ≡ t key' field'
table_set_ne t key field key' field' v h = ground (arith, eq_iff key key', eq_iff field field')

abbrev pub table_del : Table → String → Table
table_del t key k f = if str_eq key k then none else t k f

pub table_del_self : (t : Table) (key field : String) → table_del t key key field ≡ none
table_del_self t key field = ground (arith, eq_iff key key)

pub table_del_ne :
    (t : Table) (key key' field : String) → key ≢ key' → table_del t key key' field ≡ t key' field
table_del_ne t key key' field h = ground (arith, eq_iff key key')

abbrev pub table_server : HashServer
table_server = record {
  State = Table;
  hget = λ t. t;
  hset = table_set;
  pexpire = λ t key ms. t;
  del = table_del;
  hget-hset_self = table_set_self;
  hget-hset_ne = table_set_ne;
  hget-pexpire = λ t key ms k f. refl;
  hget-del_self = table_del_self;
  hget-del_ne = table_del_ne;
}

abbrev pub empty_table : Table
empty_table key field = none
