-- ===== src/Report/Key/Same.antt =====
-- What a description says of the values that are put in it.
use text.Mathlib.Text.{◌==◌ as str_eq}
use text.Mathlib.TextEquality.{eq_iff}
use mathlib.Core.List.{head-eq_of_cons-eq, tail-eq_of_cons-eq, cons≢nil}
use whisky_scrapper_node.Prelude.{
  ℕ, String, ◌≡◌, ◌≢◌, ◌↔◌, refl, sym, ap, ◌∙◌, Option, none, some, Bool, true, false, not, ◌&&◌,
  List, [], ◌∷◌, all, All, length, arith,
}
use whisky_scrapper_node.Report.Request.{ReportWindow}
use whisky_scrapper_node.Report.Key.{
  FieldValue, of_window, of_text, of_number, of_set, of_flag, constraining, value_of, flag_of,
  field_names, defined,
}

-- Names of which none stands twice.
abbrev pub Apart : List String → Type 0
Apart [] = Unit
Apart (x ∷ xs) = All (λ y. x ≢ y) xs × Apart xs

abbrev apart_test : List String → Bool
apart_test [] = true
apart_test (x ∷ xs) = all (λ y. not (str_eq x y)) xs && apart_test xs

all-All :
    (x : String) (xs : List String) → all (λ y. not (str_eq x y)) xs ≡ true → All (λ y. x ≢ y) xs
all-All x [] h = tt
all-All x (y ∷ ys) h = ((λ e. ground (arith, h, eq_iff x y, e)), all-All x ys (ground (arith, h)))

apart_test-Apart : (xs : List String) → apart_test xs ≡ true → Apart xs
apart_test-Apart [] h = tt
apart_test-Apart (x ∷ xs) h =
    (all-All x xs (ground (arith, h)), apart_test-Apart xs (ground (arith, h)))

pub field_names-Apart : Apart field_names
field_names-Apart = apart_test-Apart field_names refl

-- A name that is not among the names is not the first of a description.
defined-other :
    (name : String) (names : List String) (values : List (Option FieldValue)) (value : FieldValue)
    (rest : List (String × FieldValue))
    → All (λ y. name ≢ y) names
    → defined names values ≢ (name, value) ∷ rest
unfolding defined
defined-other name [] values value rest h e = cons≢nil (sym e)
defined-other name (n ∷ names) [] value rest h e = cons≢nil (sym e)
defined-other name (n ∷ names) (none ∷ values) value rest h e =
    defined-other name names values value rest h.1 e
defined-other name (n ∷ names) (some v ∷ values) value rest h e =
    h.0 (sym (ap (λ p. p.0) (head-eq_of_cons-eq e)))

-- Descriptions under distinct names determine the values.
pub defined_injective :
    (names : List String) (xs ys : List (Option FieldValue))
    → Apart names
    → length xs ≡ length names
    → length ys ≡ length names
    → defined names xs ≡ defined names ys
    → xs ≡ ys
unfolding defined
defined_injective [] [] [] h m n e = refl
defined_injective [] [] (y ∷ ys) h m n e = absurd (omega (arith, n))
defined_injective [] (x ∷ xs) ys h m n e = absurd (omega (arith, m))
defined_injective (name ∷ names) [] ys h m n e = absurd (omega (arith, m))
defined_injective (name ∷ names) (x ∷ xs) [] h m n e = absurd (omega (arith, n))
defined_injective (name ∷ names) (none ∷ xs) (none ∷ ys) h m n e =
    ap (λ vs. none ∷ vs) (defined_injective names xs ys h.1 (omega (arith, m)) (omega (arith, n)) e)
defined_injective (name ∷ names) (none ∷ xs) (some y ∷ ys) h m n e =
    absurd (defined-other name names xs y (defined names ys) h.0 e)
defined_injective (name ∷ names) (some x ∷ xs) (none ∷ ys) h m n e =
    absurd (defined-other name names ys x (defined names xs) h.0 (sym e))
defined_injective (name ∷ names) (some x ∷ xs) (some y ∷ ys) h m n e =
    let rest =
      defined_injective names xs ys h.1 (omega (arith, m)) (omega (arith, n))
        (tail-eq_of_cons-eq e) in
    λ i. some ((head-eq_of_cons-eq e) i).1 ∷ rest i

-- What was put in a field.
abbrev number_in : Option FieldValue → Option ℕ
number_in (some (of_number n)) = some n
number_in _ = none

abbrev text_in : Option FieldValue → Option String
text_in (some (of_text t)) = some t
text_in _ = none

abbrev set_in : Option FieldValue → Option (List String)
set_in (some (of_set xs)) = some xs
set_in _ = none

abbrev window_in : Option FieldValue → Option ReportWindow
window_in (some (of_window w)) = some w
window_in _ = none

value_of_injective :
    {A : Type 0} (f : A → FieldValue) (back : Option FieldValue → Option A)
    → back none ≡ none
    → ((x : A) → back (some (f x)) ≡ some x)
    → (a b : Option A) → value_of f a ≡ value_of f b
    → a ≡ b
value_of_injective f back nothing undo a b e = sym (undone a) ∙ ap back e ∙ undone b
  where
    undone : (o : Option _) → back (value_of f o) ≡ o
    undone none = nothing
    undone (some x) = undo x

pub number_back : (a b : Option ℕ) → value_of of_number a ≡ value_of of_number b → a ≡ b
number_back = value_of_injective of_number number_in refl (λ x. refl)

pub text_back : (a b : Option String) → value_of of_text a ≡ value_of of_text b → a ≡ b
text_back = value_of_injective of_text text_in refl (λ x. refl)

pub set_back : (a b : Option (List String)) → value_of of_set a ≡ value_of of_set b → a ≡ b
set_back = value_of_injective of_set set_in refl (λ x. refl)

pub window_back : (a b : Option ReportWindow) → value_of of_window a ≡ value_of of_window b → a ≡ b
window_back = value_of_injective of_window window_in refl (λ x. refl)

-- A minimum that is absent is 0, as the report has it.
abbrev pub minimum : Option ℕ → ℕ
minimum none = 0
minimum (some n) = n

minimum-constraining : (a : Option ℕ) → minimum (constraining a) ≡ minimum a
unfolding constraining
minimum-constraining none = refl
minimum-constraining (some n) = ground arith

constraining-minimum : (a : Option ℕ) → constraining (some (minimum a)) ≡ constraining a
unfolding constraining
constraining-minimum none = ground arith
constraining-minimum (some n) = refl

pub constraining_iff :
    (a b : Option ℕ) → (constraining a ≡ constraining b) ↔ (minimum a ≡ minimum b)
constraining_iff a b = (
  λ e. sym (minimum-constraining a) ∙ ap minimum e ∙ minimum-constraining b,
  λ e. sym (constraining-minimum a) ∙ ap (λ n. constraining (some n)) e ∙ constraining-minimum b,
)

-- Whether only verified facts are asked for.
abbrev pub verified : Option Bool → Bool
verified (some true) = true
verified (some false) = false
verified none = false

pub flag_iff : (a b : Option Bool) → (flag_of a ≡ flag_of b) ↔ (verified a ≡ verified b)
flag_iff a b = (λ e. sym (shown a) ∙ ap flagged e ∙ shown b, λ e. sym (made a) ∙ ap flag e ∙ made b)
  where
    flagged : Option FieldValue → Bool
    flagged none = false
    flagged (some v) = true

    flag : Bool → Option FieldValue
    flag true = some of_flag
    flag false = none

    shown : (o : Option Bool) → flagged (flag_of o) ≡ verified o
    shown none = refl
    shown (some true) = refl
    shown (some false) = refl

    made : (o : Option Bool) → flag (verified o) ≡ flag_of o
    made none = refl
    made (some true) = refl
    made (some false) = refl
