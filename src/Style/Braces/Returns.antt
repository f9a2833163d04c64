-- ===== src/Style/Braces/Returns.antt =====
-- Where `CheckBraces` (clint.py:2022) does not return.
use mit_6172_fa15_project.Base.{
  ℕ, Bool, true, false, ◌||◌, List, [], ◌∷◌, Option, none, some, Text, if◌then◌else◌, ◌≡◌, ◌↔◌, ◌⊎◌,
  inl, inr, refl, arith,
}
use mit_6172_fa15_project.Regex.Find.{matches, searches}
use mit_6172_fa15_project.Lint.Checked.{pass, events_then, and_then-none}
use mit_6172_fa15_project.Cleanse.Close.{Closing, close_expression}
use mit_6172_fa15_project.Style.Braces.{
  re_brace_before, re_brace_behind, re_else_if_line, else_if_paren, check_one_sided, at_paren,
  one_sided, brace_after, semicolon_behind, check_clauses, check_semicolon_behind, join_lines,
  rounds_needed, check_braces,
}
use mit_6172_fa15_project.Style.Braces.Ends.{IsStuck, join_lines-none}

-- The parenthesis behind `} else if` is not closed in the rest of the file.
pub record IsUnclosed (elided : List Text) (line : Text) (linenum : ℕ) : Type 0 where
  pub one_sided : (searches re_brace_before line || matches re_brace_behind line) ≡ true
  pub else_if : searches re_else_if_line line ≡ true
  pub pos : ℕ
  pub paren : else_if_paren line ≡ some pos
  pub unclosed : close_expression elided linenum pos ≡ none

brace_after-none : (c : Option Closing) (linenum : ℕ) → (brace_after c linenum).1 ≡ none → c ≡ none
brace_after-none none linenum e = refl
brace_after-none (some c) linenum e = cc

check_one_sided-none :
    (elided : List Text) (line : Text) (linenum : ℕ)
    → ((check_one_sided elided line linenum).1 ≡ none) ↔ IsUnclosed elided line linenum
unfolding check_one_sided
check_one_sided-none elided line linenum = (
  to (searches re_brace_before line || matches re_brace_behind line) (searches re_else_if_line line)
      (else_if_paren line) refl refl refl,
  λ u. rw (check_one_sided, u.one_sided, u.else_if, u.paren, u.unclosed) refl,
)
  where
    to :
        (a b : Bool) (o : Option ℕ)
        → (searches re_brace_before line || matches re_brace_behind line) ≡ a
        → searches re_else_if_line line ≡ b
        → else_if_paren line ≡ o
        → (if a
            then (if b then at_paren elided o linenum else pass (one_sided linenum ∷ []) tt)
            else pass [] tt).1
          ≡ none
        → IsUnclosed elided line linenum
    to false b o p q r e = cc
    to true false o p q r e = cc
    to true true none p q r e = cc
    to true true (some pos) p q r e = record {
      one_sided = p;
      else_if = q;
      pos = pos;
      paren = r;
      unclosed = brace_after-none (close_expression elided linenum pos) linenum e;
    }

check_semicolon_behind-none :
    (elided : List Text) (line : Text) (linenum : ℕ)
    → ((check_semicolon_behind elided line linenum).1 ≡ none) ↔ IsStuck elided line linenum
unfolding check_semicolon_behind
check_semicolon_behind-none elided line linenum =
    let (a, b) = join_lines-none elided line linenum (rounds_needed linenum) (omega arith) in
    (
      λ e. a (to (join_lines (rounds_needed linenum) elided line linenum) e),
      λ s. rw (check_semicolon_behind, b s) refl,
    )
  where
    to : (o : Option Text) → (semicolon_behind o linenum).1 ≡ none → o ≡ none
    to none e = refl
    to (some t) e = cc

-- CheckBraces does not return exactly where the parenthesis behind `} else if` is not closed in the
-- rest of the file, an IndexError, or the loop on the lines above is stuck.
pub check_braces-none :
    (elided : List Text) (line : Text) (linenum : ℕ)
    → ((check_braces elided line linenum).1 ≡ none)
      ↔ (IsUnclosed elided line linenum ⊎ IsStuck elided line linenum)
unfolding check_braces
check_braces-none elided line linenum =
    let (a, b) =
      and_then-none (check_one_sided elided line linenum)
        (events_then (check_clauses line linenum) (check_semicolon_behind elided line linenum)) in
    let (c, d) = check_one_sided-none elided line linenum in
    let (f, g) = check_semicolon_behind-none elided line linenum in
    (
      λ e. elim (a e) [ inl x ↦ inl (c x) | inr y ↦ inr (f y) ],
      λ u. b (elim u [ inl x ↦ inl (d x) | inr y ↦ inr (g y) ]),
    )
