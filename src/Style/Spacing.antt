-- ===== src/Style/Spacing.antt =====
-- `CheckSpacing` (clint.py:1701).
use mit_6172_fa15_project.Base.{
  ℕ, not, ◌&&◌, List, [], ◌∷◌, ◌++◌, Option, none, some, Text, if◌then◌else◌,
}
use mit_6172_fa15_project.Str.{codes}
use mit_6172_fa15_project.Regex.{Regex, char}
use mit_6172_fa15_project.Regex.Find.{searches}
use mit_6172_fa15_project.Regex.Notation.{
  boundary, bol, eol, spaces, blanks, is, lit, none_of, solid, plus, is_word, is_blank, ◌▸◌,
}
use mit_6172_fa15_project.Lint.{Event, error}
use mit_6172_fa15_project.Lint.Checked.{Checked, pass, and_then, event_if}
use mit_6172_fa15_project.Cleanse.{CleansedLines}
use mit_6172_fa15_project.LineChecks.{is_blank_line}
use mit_6172_fa15_project.Style.Blanks.{line_before, check_blank_line}
use mit_6172_fa15_project.Style.Beside.{check_beside}
use mit_6172_fa15_project.Style.Operators.{without_operator_methods, check_operators}
use mit_6172_fa15_project.Style.Parens.{check_parens, check_spacing_for_function_call}

-- ,[^\s] and ;[^\s};\\)/]
unfoldable pub re_tight_comma : Regex
unfolding is solid
re_tight_comma = is b',' ▸ solid []

unfoldable pub re_tight_semicolon : Regex
unfolding is solid codes
re_tight_semicolon = is b';' ▸ solid (codes "};\\)/")

-- [^ ({]{ and }else
unfoldable pub re_tight_brace : Regex
unfolding none_of is codes
re_tight_brace = none_of (codes " ({") ▸ is b'{'

unfoldable pub re_tight_else : Regex
unfolding lit
re_tight_else = lit "}else"

-- \w\s+\[ and delete\s+\[
unfoldable pub re_loose_bracket : Regex
unfolding is_word plus is_blank is
re_loose_bracket = char is_word ▸ blanks ▸ is b'['

unfoldable pub re_delete_array : Regex
unfolding lit plus is_blank is
re_delete_array = lit "delete" ▸ blanks ▸ is b'['

-- :\s*;\s*$ and ^\s*;\s*$ and \s+;\s*$
unfoldable pub re_colon_semicolon : Regex
unfolding is spaces eol
re_colon_semicolon = is b':' ▸ spaces ▸ is b';' ▸ spaces ▸ eol

unfoldable pub re_only_semicolon : Regex
unfolding bol spaces is eol
re_only_semicolon = bol ▸ spaces ▸ is b';' ▸ spaces ▸ eol

unfoldable pub re_loose_semicolon : Regex
unfolding plus is_blank is spaces eol
re_loose_semicolon = blanks ▸ is b';' ▸ spaces ▸ eol

-- \bfor\b
unfoldable pub re_for : Regex
unfolding boundary lit
re_for = boundary ▸ lit "for" ▸ boundary

-- The last three tests of a semicolon.
unfoldable pub check_last_semicolon : Text → ℕ → List Event
unfolding codes
check_last_semicolon line linenum =
    if searches re_colon_semicolon line
    then error linenum (codes "whitespace/semicolon") 5
        (codes "Semicolon defining empty statement. Use { } instead.")
      ∷ []
    else if searches re_only_semicolon line
    then error linenum (codes "whitespace/semicolon") 5 (
        codes
          "Line contains only semicolon. If this should be an empty statement, use { } instead.")
      ∷ []
    else event_if (searches re_loose_semicolon line && not (searches re_for line)) (
        error linenum (codes "whitespace/semicolon") 5 (
          codes
            "Extra space before last semicolon. If this should be an empty statement, use { } instead."))

abbrev check_separators : Text → ℕ → List Event
check_separators line linenum =
    event_if (searches re_tight_comma line)
      (error linenum (codes "whitespace/comma") 3 (codes "Missing space after ,"))
    ++ event_if (searches re_tight_semicolon line)
        (error linenum (codes "whitespace/semicolon") 3 (codes "Missing space after ;"))

abbrev check_brackets : Text → ℕ → List Event
check_brackets line linenum =
    event_if (searches re_tight_brace line)
      (error linenum (codes "whitespace/braces") 5 (codes "Missing space before {"))
    ++ (event_if (searches re_tight_else line)
          (error linenum (codes "whitespace/braces") 5 (codes "Missing space before else"))
        ++ event_if (searches re_loose_bracket line && not (searches re_delete_array line))
            (error linenum (codes "whitespace/braces") 5 (codes "Extra space before [")))

-- The checks of the line without comments and strings.
unfoldable pub check_elided_spacing : Text → ℕ → List Event
unfolding codes check_last_semicolon
check_elided_spacing elided linenum =
    let line = without_operator_methods elided in
    check_operators line linenum
    ++ (check_parens line linenum
        ++ (check_separators line linenum
            ++ (check_spacing_for_function_call line linenum
                ++ (check_brackets line linenum ++ check_last_semicolon line linenum))))

abbrev pub behind_line : CleansedLines → Option Text → ℕ → Checked Unit
behind_line clean none linenum = ([], none)
behind_line clean (some prev_line) linenum = pass (check_blank_line clean prev_line linenum) tt

-- The checks of a blank line; `none` is an IndexError.
unfoldable pub check_if_blank : CleansedLines → Text → ℕ → Checked Unit
check_if_blank clean raw linenum =
    if is_blank_line raw
    then behind_line clean (line_before clean.elided linenum) linenum
    else pass [] tt

-- CheckSpacing on the raw and the elided text of a line
unfoldable pub check_spacing : CleansedLines → Text → Text → ℕ → Checked Unit
unfolding check_elided_spacing check_if_blank and_then
check_spacing clean raw elided linenum =
    and_then (check_if_blank clean raw linenum)
      (λ _. pass (check_beside raw linenum ++ check_elided_spacing elided linenum) tt)
