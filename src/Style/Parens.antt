-- ===== src/Style/Parens.antt =====
-- Spaces around parentheses: `CheckSpacing` (clint.py:1870-1893) and `CheckSpacingForFunctionCall`
-- (clint.py:1517), on the elided line.
use mit_6172_fa15_project.Base.{
  ℕ, ◌+◌, Bool, not, ◌&&◌, ◌||◌, List, [], ◌∷◌, ◌++◌, Option, none, some, Text, leb, length, ◌==◌,
  if◌then◌else◌,
}
use mit_6172_fa15_project.Str.{codes, text_eq}
use mit_6172_fa15_project.Regex.{Regex, char, star, group}
use mit_6172_fa15_project.Regex.Find.{Hit, search, searches, group_of, or_else}
use mit_6172_fa15_project.Regex.Notation.{
  boundary, bol, eol, spaces, blanks, anything, is, lit, none_of, one_of, plus, is_word, is_any,
  is_blank, not_peek, solid, ◌▸◌, ◌∣∣◌,
}
use mit_6172_fa15_project.Lint.{Event, error}
use mit_6172_fa15_project.Lint.Checked.{event_if}
use mit_6172_fa15_project.Style.Operators.{about_group}

--  (if\(|for\(|while\(|switch\()
unfoldable pub re_keyword_paren : Regex
unfolding is lit
re_keyword_paren = is b' ' ▸ group 1 (lit "if(" ∣∣ lit "for(" ∣∣ lit "while(" ∣∣ lit "switch(")

-- \b(if|for|while|switch)\s*\(([ ]*)(.).*[^ ]+([ ]*)\)\s*{\s*$
unfoldable pub re_control : Regex
unfolding boundary lit spaces is is_any plus none_of eol
re_control =
    boundary
    ▸ group 1 (lit "if" ∣∣ lit "for" ∣∣ lit "while" ∣∣ lit "switch")
    ▸ spaces
    ▸ is b'('
    ▸ group 2 (star (is b' '))
    ▸ group 3 (char is_any)
    ▸ anything
    ▸ plus (none_of (b' ' ∷ []))
    ▸ group 4 (star (is b' '))
    ▸ is b')'
    ▸ spaces
    ▸ is b'{'
    ▸ spaces
    ▸ eol

-- \bfor\s*\(.*; \)
unfoldable pub re_for_rest : Regex
unfolding boundary lit spaces is is_any
re_for_rest = boundary ▸ lit "for" ▸ spaces ▸ is b'(' ▸ anything ▸ lit "; )"

-- m.group(i), for a group that every match sets
abbrev text_of : Option Text → Text
text_of none = []
text_of (some t) = t

-- The spaces inside the parentheses, `opening` and `closing` of them, do not fit.
unfoldable pub is_mismatch : Text → Text → ℕ → ℕ → Bool
unfolding codes
is_mismatch line first opening closing =
    not (opening == closing)
    && not (
        (text_eq first (codes ";") && opening == 1 + closing)
        || (opening == 0 && searches re_for_rest line))

abbrev check_control_match : Text → Hit → ℕ → List Event
check_control_match line m linenum =
    let opening = length (text_of (group_of m 2)) in
    event_if (is_mismatch line (text_of (group_of m 3)) opening (length (text_of (group_of m 4)))) (
      error linenum (codes "whitespace/parens") 5
        (codes "Mismatching spaces inside () in " ++ text_of (group_of m 1)))
    ++ event_if (not (leb opening 1)) (
        error linenum (codes "whitespace/parens") 5
          (codes "Should have zero or one spaces inside ( and ) in " ++ text_of (group_of m 1)))

abbrev check_control : Text → Option Hit → ℕ → List Event
check_control line none linenum = []
check_control line (some m) linenum = check_control_match line m linenum

-- The checks of if, for, while and switch.
unfoldable pub check_parens : Text → ℕ → List Event
unfolding codes about_group group_of is_mismatch
check_parens line linenum =
    about_group (codes "whitespace/parens") (search re_keyword_paren line) 5
      (codes "Missing space before ( in ") linenum
    ++ check_control line (search re_control line) linenum

-- \bif\s*\((.*)\)\s*{ for a keyword, and while with [{;] at the end
unfoldable pub re_control_body : Regex → Regex → Regex
unfolding boundary spaces is is_any
re_control_body keyword closing =
    boundary ▸ keyword ▸ spaces ▸ is b'(' ▸ group 1 anything ▸ is b')' ▸ spaces ▸ closing

-- The text that the loop over the four patterns searches for calls.
unfoldable pub fncall_of : Text → Text
unfolding re_control_body lit is one_of
fncall_of line =
    let found = or_else (search (re_control_body (lit "if") (is b'{')) line) (
      or_else (search (re_control_body (lit "for") (is b'{')) line) (
        or_else (search (re_control_body (lit "while") (one_of (b'{' ∷ b';' ∷ []))) line)
          (search (re_control_body (lit "switch") (is b'{')) line))) in
    elim found [ none ↦ line | some m ↦ text_of (group_of m 1) ]

-- \b(if|for|while|switch|return|delete)\b
unfoldable pub re_control_word : Regex
unfolding boundary lit
re_control_word =
    boundary
    ▸ group 1 (lit "if" ∣∣ lit "for" ∣∣ lit "while" ∣∣ lit "switch" ∣∣ lit "return" ∣∣ lit "delete")
    ▸ boundary

abbrev in_parens : Regex
in_parens = lit " (" ▸ plus (none_of (b')' ∷ [])) ▸ is b')'

--  \([^)]+\)\([^)]*(\)|,$)
unfoldable pub re_function_pointer : Regex
unfolding lit plus none_of is eol
re_function_pointer =
    in_parens ▸ is b'(' ▸ star (none_of (b')' ∷ [])) ▸ group 1 (is b')' ∣∣ is b',' ▸ eol)

--  \([^)]+\)\[[^\]]+\]
unfoldable pub re_array_pointer : Regex
unfolding lit plus none_of is
re_array_pointer = in_parens ▸ is b'[' ▸ plus (none_of (b']' ∷ [])) ▸ is b']'

-- \w\s*\(\s(?!\s*\\$)
unfoldable pub re_space_in_call : Regex
unfolding is_word spaces is is_blank not_peek eol
re_space_in_call =
    char is_word ▸ spaces ▸ is b'(' ▸ char is_blank ▸ not_peek (spaces ▸ is b'\\' ▸ eol)

-- \(\s+(?!(\s*\\)|\()
unfoldable pub re_space_in_parens : Regex
unfolding is plus is_blank not_peek spaces
re_space_in_parens = is b'(' ▸ blanks ▸ not_peek (group 1 (spaces ▸ is b'\\') ∣∣ is b'(')

-- \w\s+\(
unfoldable pub re_space_before_paren : Regex
unfolding is_word plus is_blank is
re_space_before_paren = char is_word ▸ blanks ▸ is b'('

-- #\s*define|typedef
unfoldable pub re_macro_definition : Regex
unfolding is spaces lit
re_macro_definition = (is b'#' ▸ spaces ▸ lit "define") ∣∣ lit "typedef"

-- [^)]\s+\)\s*[^{\s]
unfoldable pub re_space_before_closing : Regex
unfolding none_of plus is_blank is spaces solid codes
re_space_before_closing = none_of (b')' ∷ []) ▸ blanks ▸ is b')' ▸ spaces ▸ solid (codes "{")

-- ^\s+\)
unfoldable pub re_leading_closing : Regex
unfolding bol plus is_blank is
re_leading_closing = bol ▸ blanks ▸ is b')'

abbrev parens_error : ℕ → ℕ → Text → Event
parens_error linenum confidence message =
    error linenum (codes "whitespace/parens") confidence message

abbrev check_call : Text → ℕ → List Event
check_call fncall linenum =
    (if searches re_space_in_call fncall
      then parens_error linenum 4 (codes "Extra space after ( in function call") ∷ []
      else event_if (searches re_space_in_parens fncall)
          (parens_error linenum 2 (codes "Extra space after (")))
    ++ (event_if
          (searches re_space_before_paren fncall && not (searches re_macro_definition fncall))
          (parens_error linenum 4 (codes "Extra space before ( in function call"))
        ++ event_if (searches re_space_before_closing fncall) (
            parens_error linenum 2 (
              if searches re_leading_closing fncall
              then codes "Closing ) should be moved to the previous line"
              else codes "Extra space before )")))

-- A call that the checks leave out.
unfoldable pub is_tricky : Text → Bool
is_tricky fncall =
    searches re_control_word fncall
    || searches re_function_pointer fncall
    || searches re_array_pointer fncall

-- CheckSpacingForFunctionCall
unfoldable pub check_spacing_for_function_call : Text → ℕ → List Event
unfolding codes fncall_of
check_spacing_for_function_call line linenum =
    if is_tricky (fncall_of line) then [] else check_call (fncall_of line) linenum
