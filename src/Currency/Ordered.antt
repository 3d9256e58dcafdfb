-- ===== src/Currency/Ordered.antt =====
-- Days in order: what sorting by their numbers answers.
use Prim.Native.Nat.{Ordering}
use whisky_scrapper_node.Prelude.{
  ℕ, ◌≤◌, List, [], ◌∷◌, if◌then◌else◌, ltb, sort, insert_sorted, Bool-cases, ltb→lt, ltb-false→le,
  arith, inl, inr,
}

-- A day and its rate.
abbrev pub Entry : Type 0
Entry = ℕ × ℕ

abbrev pub by_number : Entry → Entry → Ordering
by_number e f = if ltb e.0 f.0 then Ordering.lt else Ordering.gt

-- The days of a list do not descend.
abbrev pub Dated : List Entry → Type 0
Dated [] = Unit
Dated (e ∷ []) = Unit
Dated (e ∷ f ∷ fs) = (e.0 ≤ f.0) × Dated (f ∷ fs)

cons-insert_sorted-Dated :
    (e f : Entry) (fs : List Entry)
    → f.0 ≤ e.0
    → Dated (f ∷ fs)
    → Dated (f ∷ insert_sorted by_number e fs)
unfolding insert_sorted
cons-insert_sorted-Dated e f [] le h = (le, tt)
cons-insert_sorted-Dated e f (g ∷ gs) le h = elim (Bool-cases (ltb e.0 g.0)) [
  | inl t ↦ rw (t, insert_sorted) (le, (omega (arith, ltb→lt e.0 g.0 t), h.1))
  | inr t ↦
      rw (t, insert_sorted) (h.0, cons-insert_sorted-Dated e g gs (ltb-false→le e.0 g.0 t) h.1)
]

insert_sorted-Dated :
    (e : Entry) (fs : List Entry) → Dated fs → Dated (insert_sorted by_number e fs)
unfolding insert_sorted
insert_sorted-Dated e [] h = tt
insert_sorted-Dated e (f ∷ fs) h = elim (Bool-cases (ltb e.0 f.0)) [
  | inl t ↦ rw (t, insert_sorted) (omega (arith, ltb→lt e.0 f.0 t), h)
  | inr t ↦ rw (t, insert_sorted) (cons-insert_sorted-Dated e f fs (ltb-false→le e.0 f.0 t) h)
]

pub sort-Dated : (es : List Entry) → Dated (sort by_number es)
unfolding sort
sort-Dated [] = tt
sort-Dated (e ∷ es) = insert_sorted-Dated e (sort by_number es) (sort-Dated es)
