-- ===== src/Style/Braces.antt =====
-- `CheckBraces` (clint.py:2022), on the elided lines.
pub mod Ends
pub mod Returns
use mit_6172_fa15_project.Base.{
  ℕ, zero, suc, ◌+◌, ◌-◌, Bool, not, ◌&&◌, ◌||◌, List, [], ◌∷◌, ◌++◌, Option, none, some, Text,
  if◌then◌else◌, drop, length, ◌==◌,
}
use mit_6172_fa15_project.Str.{codes, contains, count_char, find?}
use mit_6172_fa15_project.Regex.{Regex, star, group}
use mit_6172_fa15_project.Regex.Find.{matches, searches}
use mit_6172_fa15_project.Regex.Notation.{
  boundary, eol, spaces, blanks, anything, is, lit, none_of, one_of, plus, is_any, is_blank, solid,
  ◌▸◌, ◌∣∣◌,
}
use mit_6172_fa15_project.Lint.{Event, error}
use mit_6172_fa15_project.Lint.Checked.{Checked, pass, and_then, events_then, event_if}
use mit_6172_fa15_project.Cleanse.Close.{Closing, close_expression}
use mit_6172_fa15_project.LineChecks.{get_previous_non_blank_line}

-- \s*{\s*$
unfoldable pub re_lone_brace : Regex
unfolding spaces is eol
re_lone_brace = spaces ▸ is b'{' ▸ spaces ▸ eol

-- [;:}{]\s*$
unfoldable pub re_statement_end : Regex
unfolding one_of spaces eol codes
re_statement_end = one_of (codes ";:}{") ▸ spaces ▸ eol

-- \s*else\s* and \s*}\s*$
unfoldable pub re_else : Regex
unfolding spaces lit
re_else = spaces ▸ lit "else" ▸ spaces

unfoldable pub re_lone_closing : Regex
unfolding spaces is eol
re_lone_closing = spaces ▸ is b'}' ▸ spaces ▸ eol

-- }\s*else[^{]*$ and [^}]*else\s*{
unfoldable pub re_brace_before : Regex
unfolding is spaces lit none_of eol
re_brace_before = is b'}' ▸ spaces ▸ lit "else" ▸ star (none_of (b'{' ∷ [])) ▸ eol

unfoldable pub re_brace_behind : Regex
unfolding is spaces lit none_of
re_brace_behind = star (none_of (b'}' ∷ [])) ▸ lit "else" ▸ spaces ▸ is b'{'

-- }\s*else if([^{]*)$
unfoldable pub re_else_if_line : Regex
unfolding is spaces lit none_of eol
re_else_if_line = is b'}' ▸ spaces ▸ lit "else if" ▸ group 1 (star (none_of (b'{' ∷ []))) ▸ eol

-- \belse [^\s{] and \belse if\b
unfoldable pub re_else_clause : Regex
unfolding boundary lit solid codes
re_else_clause = boundary ▸ lit "else " ▸ solid (codes "{")

unfoldable pub re_else_if : Regex
unfolding boundary lit
re_else_if = boundary ▸ lit "else if" ▸ boundary

-- \s*do [^\s{]
unfoldable pub re_do : Regex
unfolding spaces lit solid codes
re_do = spaces ▸ lit "do " ▸ solid (codes "{")

-- \s+{.*}\s*; and {.*}\s*;
unfoldable pub re_braced : Regex
unfolding is is_any spaces
re_braced = is b'{' ▸ anything ▸ is b'}' ▸ spaces ▸ is b';'

unfoldable pub re_indented : Regex
unfolding plus is_blank re_braced
re_indented = blanks ▸ re_braced

-- struct|class|enum|\s*=\s*{
unfoldable pub re_definition : Regex
unfolding lit spaces is
re_definition = lit "struct" ∣∣ lit "class" ∣∣ lit "enum" ∣∣ (spaces ▸ is b'=' ▸ spaces ▸ is b'{')

-- GetPreviousNonBlankLine: ('', -1) where there is none. Above the line 0 and above the line -1 there
-- is none, so that both are 0 here.
unfoldable pub previous : List Text → ℕ → Text × ℕ
previous elided linenum = elim (get_previous_non_blank_line elided linenum) [
  | none ↦ ([], 0)
  | some found ↦ found
]

-- The loop that puts the lines above in front of a line with braces; `none` where it makes more than
-- `n` rounds.
unfoldable pub join_lines : ℕ → List Text → Text → ℕ → Option Text
unfolding previous
join_lines zero elided line prevlinenum = none
join_lines (suc n) elided line prevlinenum =
    let (prevline, further) = previous elided prevlinenum in
    let rest = join_lines n elided (prevline ++ line) further in
    if matches re_indented line && count_char b';' prevline == 0 then rest else some line

-- Line `linenum` of a file ends the loop within two rounds more than there are lines above it, or
-- not at all.
abbrev pub rounds_needed : ℕ → ℕ
rounds_needed linenum = linenum + 2

unfoldable pub is_useless_semicolon : Text → Bool
is_useless_semicolon line =
    searches re_braced line
    && count_char b'{' line == count_char b'}' line
    && not (searches re_definition line)

abbrev pub semicolon_behind : Option Text → ℕ → Checked Unit
semicolon_behind none linenum = ([], none)
semicolon_behind (some line) linenum =
    pass
      (event_if (is_useless_semicolon line)
        (error linenum (codes "readability/braces") 4 (codes "You don't need a ; after a }")))
      tt

-- The loop and the check behind it; `none` where the loop does not end.
unfoldable pub check_semicolon_behind : List Text → Text → ℕ → Checked Unit
unfolding join_lines codes
check_semicolon_behind elided line linenum =
    semicolon_behind (join_lines (rounds_needed linenum) elided line linenum) linenum

abbrev pub one_sided : ℕ → Event
one_sided linenum =
    error linenum (codes "readability/braces") 5
      (codes "If an else has a brace on one side, it should have it on both")

-- line.find('(', line.find('else if')), where that is greater than 0
unfoldable pub else_if_paren : Text → Option ℕ
unfolding codes
else_if_paren line = elim (find? line (codes "else if")) [
  | none ↦ none
  | some pos ↦ elim (find? (drop pos line) (codes "(")) [ none ↦ none | some n ↦ some (pos + n) ]
]

-- s[pos:]; -1 leaves the last character
abbrev back : Text → Option ℕ → Text
back line none = drop (length line - 1) line
back line (some pos) = drop pos line

abbrev pub brace_after : Option Closing → ℕ → Checked Unit
brace_after none linenum = ([], none)
brace_after (some closing) linenum =
    pass (event_if (not (contains (back closing.line closing.pos) (codes "{"))) (one_sided linenum))
      tt

abbrev pub at_paren : List Text → Option ℕ → ℕ → Checked Unit
at_paren elided none linenum = pass [] tt
at_paren elided (some pos) linenum = brace_after (close_expression elided linenum pos) linenum

-- Braces on one side of an else; `none` is the IndexError of CloseExpression.
unfoldable pub check_one_sided : List Text → Text → ℕ → Checked Unit
unfolding codes else_if_paren
check_one_sided elided line linenum =
    if searches re_brace_before line || matches re_brace_behind line
    then (if searches re_else_if_line line
        then at_paren elided (else_if_paren line) linenum
        else pass (one_sided linenum ∷ []) tt)
    else pass [] tt

abbrev check_lone_brace : Text → Text → ℕ → List Event
check_lone_brace prevline line linenum =
    event_if (matches re_lone_brace line && not (searches re_statement_end prevline)) (
      error linenum (codes "whitespace/braces") 4
        (codes "{ should almost always be at the end of the previous line"))
    ++ event_if (matches re_else line && matches re_lone_closing prevline) (
        error linenum (codes "whitespace/newline") 4
          (codes "An else should appear on the same line as the preceding }"))

abbrev pub check_clauses : Text → ℕ → List Event
check_clauses line linenum =
    event_if (searches re_else_clause line && not (searches re_else_if line)) (
      error linenum (codes "whitespace/newline") 4
        (codes "Else clause should never be on same line as else (use 2 lines)"))
    ++ event_if (matches re_do line) (
        error linenum (codes "whitespace/newline") 4
          (codes "do/while clauses should not be on a single line"))

-- CheckBraces
unfoldable pub check_braces : List Text → Text → ℕ → Checked Unit
unfolding codes previous check_one_sided check_semicolon_behind
check_braces elided line linenum =
    events_then (check_lone_brace (previous elided linenum).0 line linenum) (
      and_then (check_one_sided elided line linenum) (λ _.
        events_then (check_clauses line linenum) (check_semicolon_behind elided line linenum)))
