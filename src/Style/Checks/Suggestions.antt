-- ===== src/Style/Checks/Suggestions.antt =====
-- What CheckCheck (clint.py:2131) suggests means the same.
use mit_6172_fa15_project.Base.{
  ℕ, Bool, true, false, not, List, [], ◌∷◌, ◌++◌, Option, none, some, Text, if◌then◌else◌, ltb, leb,
  ◌==◌, ◌≡◌, ◌⊎◌, inl, inr, refl, sym, ap, arith, Bool-cases, Option-cases, In, here, there,
}
use mit_6172_fa15_project.Str.{codes, contains, ends_with, replace, text_eq}
use mit_6172_fa15_project.Str.Laws.{text_eq_iff}
use mit_6172_fa15_project.Dict.{get}
use mit_6172_fa15_project.Lint.{error}
use mit_6172_fa15_project.Lint.Checked.{Checked}
use mit_6172_fa15_project.Style.Checks.{
  check_macros, operators, replacement_for, replaceable_check, current_macro, first_replaceable,
  check_message, check_check,
}

-- The comparisons, apart from their names.
pub data Comparison : Type 0 where
  equal unequal at_least above at_most below : Comparison

unfoldable pub holds : Comparison → ℕ → ℕ → Bool
holds equal a b = a == b
holds unequal a b = not (a == b)
holds at_least a b = leb b a
holds above a b = ltb b a
holds at_most a b = leb a b
holds below a b = ltb a b

unfoldable pub negated : Comparison → Comparison
negated equal = unequal
negated unequal = equal
negated at_least = below
negated above = at_most
negated at_most = above
negated below = at_least

-- The operator of C++, and the end of a macro's name, that stand for a comparison.
unfoldable pub operator_text : Comparison → Text
unfolding codes
operator_text equal = codes "=="
operator_text unequal = codes "!="
operator_text at_least = codes ">="
operator_text above = codes ">"
operator_text at_most = codes "<="
operator_text below = codes "<"

unfoldable pub suffix : Comparison → Text
unfolding codes
suffix equal = codes "EQ"
suffix unequal = codes "NE"
suffix at_least = codes "GE"
suffix above = codes "GT"
suffix at_most = codes "LE"
suffix below = codes "LT"

-- The macro for a comparison: CHECK_EQ for CHECK, EXPECT_EQ_M for EXPECT_TRUE_M.
unfoldable pub macro_for : Text → Comparison → Text
unfolding codes ends_with replace suffix
macro_for macro c =
    if ends_with macro (codes "CHECK")
    then macro ++ codes "_" ++ suffix c
    else replace (codes "TRUE") (suffix c) (replace (codes "FALSE") (suffix c) macro)

-- What a macro demands of the value of a test.
unfoldable pub demands : Text → Bool → Bool
unfolding codes
demands macro b = if contains macro (codes "FALSE") then not b else b

-- The comparison that a macro demands with a comparison in it.
unfoldable pub demanded : Text → Comparison → Comparison
unfolding codes negated
demanded macro c = if contains macro (codes "FALSE") then negated c else c

holds-negated : (c : Comparison) (a b : ℕ) → holds (negated c) a b ≡ not (holds c a b)
unfolding holds negated
holds-negated equal a b = refl
holds-negated unequal a b = ground arith
holds-negated at_least a b = ground arith
holds-negated above a b = ground arith
holds-negated at_most a b = ground arith
holds-negated below a b = ground arith

holds-demanded :
    (macro : Text) (c : Comparison) (a b : ℕ)
    → holds (demanded macro c) a b ≡ demands macro (holds c a b)
unfolding demanded demands
holds-demanded macro c a b = elim (Bool-cases (contains macro (codes "FALSE"))) [
  | inl y ↦ rw (demanded, demands, y) (holds-negated c a b)
  | inr n ↦ rw (demanded, demands, n) refl
]

all_of {ℓ} : {A : Type ℓ} → (A → Bool) → List A → Bool
all_of p [] = true
all_of p (x ∷ xs) = if p x then all_of p xs else false

all_of-In {ℓ} :
    {A : Type ℓ} (p : A → Bool) (xs : List A) {a : A} → all_of p xs ≡ true → In a xs → p a ≡ true
unfolding all_of
all_of-In p [] t m = elim m [ ]
all_of-In p (x ∷ xs) t (here e) = rw e (ground arith)
all_of-In p (x ∷ xs) t (there m) = all_of-In p xs (ground arith) m

abbrev comparisons : List Comparison
comparisons = equal ∷ unequal ∷ at_least ∷ above ∷ at_most ∷ below ∷ []

abbrev is_text : Option Text → Text → Bool
is_text none t = false
is_text (some s) t = text_eq s t

is_text_eq : (o : Option Text) (t : Text) → is_text o t ≡ true → o ≡ some t
is_text_eq none t h = cc
is_text_eq (some s) t h = ap some ((text_eq_iff s t).0 h)

-- The entry of the table for a macro and an operator.
abbrev is_right : Text → Comparison → Bool
is_right macro c =
    is_text (replacement_for macro (operator_text c)) (macro_for macro (demanded macro c))

all_right : all_of (λ macro. all_of (is_right macro) comparisons) check_macros ≡ true
unfolding all_of check_macros replacement_for operator_text macro_for demanded get contains
all_right = refl

In-comparisons : (c : Comparison) → In c comparisons
In-comparisons equal = here refl
In-comparisons unequal = there (here refl)
In-comparisons at_least = there (there (here refl))
In-comparisons above = there (there (there (here refl)))
In-comparisons at_most = there (there (there (there (here refl))))
In-comparisons below = there (there (there (there (there (here refl)))))

replacement_for-In :
    (macro : Text) (c : Comparison)
    → In macro check_macros
    → replacement_for macro (operator_text c) ≡ some (macro_for macro (demanded macro c))
replacement_for-In macro c m = is_text_eq _ _ (
    all_of-In (is_right macro) comparisons
      (all_of-In (λ n. all_of (is_right n) comparisons) check_macros all_right m)
      (In-comparisons c))

current_macro-In :
    (macros : List Text) (raw macro : Text)
    → current_macro macros raw ≡ some macro
    → In macro macros × (contains raw macro ≡ true)
unfolding current_macro
current_macro-In [] raw macro h = cc
current_macro-In (m ∷ macros) raw macro h = elim (Bool-cases (contains raw m)) [
  | inl y ↦ let e : m ≡ macro = ground arith in (here (sym e), rw (← e) y)
  | inr n ↦ let (i, c) = current_macro-In macros raw macro (ground arith) in (there i, c)
]

first_replaceable-In :
    (l : List Text) (macro line operator : Text)
    → first_replaceable l macro line ≡ some operator
    → In operator l × (replaceable_check operator macro line ≡ true)
unfolding first_replaceable
first_replaceable-In [] macro line operator h = cc
first_replaceable-In (o ∷ l) macro line operator h =
    elim (Bool-cases (replaceable_check o macro line)) [
      | inl y ↦ let e : o ≡ operator = ground arith in (here (sym e), rw (← e) y)
      | inr n ↦
          let (i, c) = first_replaceable-In l macro line operator (ground arith) in (there i, c)
    ]

In-operators :
    (operator : Text) → In operator operators → (c : Comparison) × (operator ≡ operator_text c)
unfolding operators operator_text
In-operators operator (here e) = (equal, e)
In-operators operator (there (here e)) = (unequal, e)
In-operators operator (there (there (here e))) = (at_least, e)
In-operators operator (there (there (there (here e)))) = (above, e)
In-operators operator (there (there (there (there (here e))))) = (at_most, e)
In-operators operator (there (there (there (there (there (here e)))))) = (below, e)
In-operators operator (there (there (there (there (there (there m)))))) = elim m [ ]

-- A message that CheckCheck may give: the macro is on the line, and that which it names demands of
-- any two numbers what the macro demands of the comparison of them.
pub record Suggestion (raw elided : Text) (linenum : ℕ) (checked : Checked Unit) : Type 0 where
  pub macro : Text
  pub comparison : Comparison
  pub suggested : Comparison
  pub on_line : contains raw macro ≡ true
  pub replaceable : replaceable_check (operator_text comparison) macro elided ≡ true
  pub same_meaning : (a b : ℕ) → holds suggested a b ≡ demands macro (holds comparison a b)
  pub reported : checked ≡ (
    error linenum
          (codes "readability/check")
          2
          (check_message (macro_for macro suggested) macro (operator_text comparison))
        ∷ [],
    some tt,
  )

check_check-some :
    (raw elided macro operator replacement : Text) (linenum : ℕ)
    → current_macro check_macros raw ≡ some macro
    → first_replaceable operators macro elided ≡ some operator
    → replacement_for macro operator ≡ some replacement
    → check_check raw elided linenum ≡ (
      error linenum (codes "readability/check") 2 (check_message replacement macro operator) ∷ [],
      some tt,
    )
unfolding check_check
check_check-some raw elided macro operator replacement linenum e o r =
    rw (check_check, e, o, r) refl

-- CheckCheck raises no KeyError: it says nothing, or makes one suggestion, and the macro that it
-- suggests demands of all numbers exactly what the macro on the line demands.
pub check_check-Suggestion :
    (raw elided : Text) (linenum : ℕ)
    → (check_check raw elided linenum ≡ ([], some tt))
      ⊎ Suggestion raw elided linenum (check_check raw elided linenum)
unfolding check_check
check_check-Suggestion raw elided linenum = elim (Option-cases (current_macro check_macros raw)) [
  | inl e ↦ inl (rw (check_check, e) refl)
  | inr (macro, e) ↦ elim (Option-cases (first_replaceable operators macro elided)) [
    | inl n ↦ inl (rw (check_check, e, n) refl)
    | inr (operator, o) ↦ inr (suggestion macro operator e o)
  ]
]
  where
    suggestion :
        (macro operator : Text)
        → current_macro check_macros raw ≡ some macro
        → first_replaceable operators macro elided ≡ some operator
        → Suggestion raw elided linenum (check_check raw elided linenum)
    suggestion macro operator e o =
        let (i, on_line) = current_macro-In check_macros raw macro e in
        let (j, replaceable) = first_replaceable-In operators macro elided operator o in
        let (c, same) = In-operators operator j in
        record {
          macro = macro;
          comparison = c;
          suggested = demanded macro c;
          on_line = on_line;
          replaceable = rw (← same) replaceable;
          same_meaning = holds-demanded macro c;
          reported =
              check_check-some raw elided macro (operator_text c)
                (macro_for macro (demanded macro c)) linenum e (rw (← same) o)
                (replacement_for-In macro c i);
        }
