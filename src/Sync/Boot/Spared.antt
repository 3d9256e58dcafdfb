-- ===== src/Sync/Boot/Spared.antt =====
-- What the sweep at boot spares and what it closes.
use whisky_scrapper_node.Prelude.{
  ℕ, ◌+◌, String, ◌≡◌, refl, ap, Option, Bool, not, ◌&&◌, List, [], ◌∷◌, map, filter, length, arith,
  ltb, leb, any, ◌||◌, All, ◌∙◌, ◌++◌, none, some, true, false, if◌then◌else◌, Bool-cases, inl, inr,
  Option-cases,
}
use text.Mathlib.Text.{◌==◌ as str_eq}
use text.Mathlib.TextEquality.{eq_iff}
use whisky_scrapper_node.Sync.Log.{
  SyncLog, is_open, sweep_orphaned, swept, is_orphaned, owner_is_gone,
}
use whisky_scrapper_node.Sync.Collect.{SyncConfig}
use whisky_scrapper_node.Sync.Boot.{open_owners, alive_owners, orphan_age_ms, on_module_init}

-- What the sweep keeps open: nothing but open runs that were touched in time, and whose owner is
-- alive, if it is known who is.
abbrev pub kept : Option (List String) → ℕ → ℕ → SyncLog → Bool
kept alive max_age now row =
    is_open row && (not (owner_is_gone alive row) && not (ltb (row.updated_at + max_age) now))

filter-swept :
    (alive : Option (List String)) (max_age now : ℕ) (rows : List SyncLog)
    → filter is_open (map (swept alive max_age now) rows) ≡ filter (kept alive max_age now) rows
unfolding swept is_orphaned
filter-swept alive max_age now [] = refl
filter-swept alive max_age now (row ∷ rows) = ground (arith, filter-swept alive max_age now rows)

swept-count :
    (alive : Option (List String)) (max_age now : ℕ) (rows : List SyncLog)
    → length (filter (is_orphaned alive max_age now) rows)
        + length (filter (kept alive max_age now) rows)
      ≡ length (filter is_open rows)
unfolding is_orphaned
swept-count alive max_age now [] = refl
swept-count alive max_age now (row ∷ rows) = ground (arith, swept-count alive max_age now rows)

-- What the liveness store answers about a list of owners: which of them are alive, if it answers.
abbrev pub liveness : Bool → (String → Bool) → List String → Option (List String)
liveness up alive owners = if up then some (filter alive owners) else none

-- An open run that was touched within one of the two longest times of a run and a margin of five
-- minutes and, if the liveness store answers, is of this instance or of one that is alive.
abbrev pub spared : SyncConfig → Bool → (String → Bool) → String → ℕ → SyncLog → Bool
spared config up alive me now row = elim row.success [
  | some ended ↦ false
  | none ↦
      (leb now (row.updated_at + config.store_timeout_ms + 300000)
        || leb now (row.updated_at + config.browser_store_timeout_ms + 300000))
      && (not up
          || elim row.owner_id [ none ↦ false | some owner ↦ str_eq owner me || alive owner ])
]

any-filter :
    (alive : String → Bool) (owner : String) (xs : List String)
    → any (str_eq owner) (filter alive xs) ≡ any (str_eq owner) xs && alive owner
any-filter alive owner [] = refl
any-filter alive owner (x ∷ xs) = elim (Bool-cases (str_eq owner x)) [
  | inl same ↦
      let is : owner ≡ x = (eq_iff owner x).0 same in
      ground (arith, any-filter alive owner xs, same, ap alive is)
  | inr other ↦ ground (arith, any-filter alive owner xs, other)
]

any-append_one :
    (owner me : String) (xs : List String)
    → any (str_eq owner) (xs ++ me ∷ []) ≡ any (str_eq owner) xs || str_eq owner me
any-append_one owner me [] = ground arith
any-append_one owner me (x ∷ xs) = ground (arith, any-append_one owner me xs)

-- The owners of open runs are asked about.
Asked : List String → SyncLog → Type 0
Asked owners row =
    (owner : String)
    → row.success ≡ none
    → row.owner_id ≡ some owner
    → any (str_eq owner) owners ≡ true

open_owners-grows :
    (owner : String) (row : SyncLog) (rows : List SyncLog)
    → any (str_eq owner) (open_owners rows) ≡ true
    → any (str_eq owner) (open_owners (row ∷ rows)) ≡ true
unfolding open_owners
open_owners-grows owner row rows h = elim (Option-cases row.owner_id) [
  | inl e ↦ rw (e, open_owners) h
  | inr (o, e) ↦ rw (e, open_owners) (ground arith)
]

open_owners-holds : (row : SyncLog) (rows : List SyncLog) → Asked (open_owners (row ∷ rows)) row
unfolding open_owners Asked
open_owners-holds row rows owner e o = rw (o, open_owners) (ground (arith, e, eq_iff owner owner))

kept-spared :
    (config : SyncConfig) (up : Bool) (alive : String → Bool) (me : String) (now : ℕ)
    (rows : List SyncLog) (row : SyncLog)
    → Asked (open_owners rows) row
    → kept (alive_owners (liveness up alive) me rows) (orphan_age_ms config) now row
      ≡ spared config up alive me now row
unfolding Asked alive_owners owner_is_gone orphan_age_ms
kept-spared config up alive me now rows row asked = elim (Option-cases row.success) [
  | inr (ended, e) ↦ rw e (ground arith)
  | inl e ↦ elim (Bool-cases up) [
    | inr down ↦ rw (e, down, alive_owners) (ground arith)
    | inl here ↦ elim (Option-cases row.owner_id) [
      | inl o ↦ rw (e, here, o, alive_owners, owner_is_gone) (ground arith)
      | inr (owner, o) ↦
          rw (e, here, o, alive_owners, owner_is_gone)
            (ground (
              arith,
              any-append_one owner me (filter alive (open_owners rows)),
              any-filter alive owner (open_owners rows),
              asked owner e o,
            ))
    ]
  ]
]

-- Every open run of a table asks about its owner.
open_owners-Asked :
    (rows all_ : List SyncLog)
    → ((owner : String)
        → any (str_eq owner) (open_owners rows) ≡ true
        → any (str_eq owner) (open_owners all_) ≡ true)
    → All (Asked (open_owners all_)) rows
unfolding Asked
open_owners-Asked [] all_ h = tt
open_owners-Asked (row ∷ rows) all_ h = (
  λ owner e o. h owner (open_owners-holds row rows owner e o),
  open_owners-Asked rows all_ (λ owner k. h owner (open_owners-grows owner row rows k)),
)

filter-kept :
    (config : SyncConfig) (up : Bool) (alive : String → Bool) (me : String) (now : ℕ)
    (all_ rows : List SyncLog)
    → All (Asked (open_owners all_)) rows
    → filter (kept (alive_owners (liveness up alive) me all_) (orphan_age_ms config) now) rows
      ≡ filter (spared config up alive me now) rows
filter-kept config up alive me now all_ [] h = refl
filter-kept config up alive me now all_ (row ∷ rows) (asked, h) =
    rw (kept-spared config up alive me now all_ row asked)
      (rw (filter-kept config up alive me now all_ rows h) refl)

-- After the sweep at boot, the open runs are those of before that were touched within the longest a
-- run may take and a margin of five minutes and, if the liveness store answered, whose owner is
-- alive or this instance; they are unchanged and in their order. The count is of the runs that were
-- closed.
pub on_module_init-open :
    (config : SyncConfig) (up : Bool) (alive : String → Bool) (me : String) (now : ℕ)
    (rows : List SyncLog)
    → let (closed, rows') = on_module_init config (liveness up alive) me now rows in
      (filter is_open rows' ≡ filter (spared config up alive me now) rows)
      × (closed + length (filter is_open rows') ≡ length (filter is_open rows))
unfolding on_module_init sweep_orphaned
on_module_init-open config up alive me now rows =
    let owners = alive_owners (liveness up alive) me rows in
    let same = filter-swept owners (orphan_age_ms config) now rows in
    (
      same
          ∙ filter-kept config up alive me now rows rows
              (open_owners-Asked rows rows (λ owner h. h)),
      omega (arith, ap length same, swept-count owners (orphan_age_ms config) now rows),
    )
