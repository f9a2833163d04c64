-- ===== src/Style/Beside.antt =====
-- `CheckSpacing` on a comment beside code (clint.py:1792-1822), on the raw line.
use mit_6172_fa15_project.Base.{
  ℕ, ◌+◌, ◌-◌, ◌%◌, Bool, false, not, ◌&&◌, ◌||◌, List, [], ◌∷◌, ◌++◌, none, some, Text,
  if◌then◌else◌, take, drop, get_elem?, leb, ◌==◌,
}
use mit_6172_fa15_project.Str.{codes, find?, count}
use mit_6172_fa15_project.Regex.{Regex, star}
use mit_6172_fa15_project.Regex.Find.{matches, searches}
use mit_6172_fa15_project.Regex.Notation.{bol, eol, spaces, is, lit, one_of, plus, is_blank, ◌▸◌}
use mit_6172_fa15_project.Lint.{Event, error}
use mit_6172_fa15_project.Lint.Checked.{event_if}
use mit_6172_fa15_project.LineChecks.{check_comment}

-- ^\s*{ //
unfoldable pub re_new_scope : Regex
unfolding bol spaces lit
re_new_scope = bol ▸ spaces ▸ lit "{ //"

-- [=/-]{4}\s*$
unfoldable pub re_drawn : Regex
unfolding one_of spaces eol codes
re_drawn =
    one_of (codes "=/-")
    ▸ one_of (codes "=/-")
    ▸ one_of (codes "=/-")
    ▸ one_of (codes "=/-")
    ▸ star (one_of (codes "=/-"))
    ▸ spaces
    ▸ eol

-- ^/$ and ^/+ followed by a space
unfoldable pub re_doxygen : Regex
unfolding bol is eol
re_doxygen = bol ▸ is b'/' ▸ eol

unfoldable pub re_slashes : Regex
unfolding bol is plus
re_slashes = bol ▸ plus (is b'/') ▸ is b' '

-- line[i] not in string.whitespace
abbrev is_text_at : Text → ℕ → Bool
is_text_at line i = elim (get_elem? line i) [ none ↦ false | some c ↦ not (is_blank c) ]

-- No text stands within the two characters in front of the comment.
unfoldable pub too_near : Text → ℕ → Bool
unfolding is_blank
too_near line commentpos =
    leb 1 commentpos && is_text_at line (commentpos - 1)
    || leb 2 commentpos && is_text_at line (commentpos - 2)

-- Whether the // stands behind an even number of quotes that are not escaped. The code takes a
-- difference, which is even exactly where the sum is.
unfoldable pub is_unquoted : Text → ℕ → Bool
unfolding codes
is_unquoted line commentpos =
    let front = take commentpos line in
    (count front (codes "\"") + count front (codes "\\\"")) % 2 == 0

-- commentend < len(line), and the character there is no space
abbrev sticks : Text → Bool
sticks [] = false
sticks (c ∷ rest) = not (c == b' ')

-- A comment that may start with no space.
unfoldable pub is_drawn : Text → Bool
is_drawn rest = searches re_drawn rest || searches re_doxygen rest || searches re_slashes rest

abbrev check_comment_at : Text → ℕ → ℕ → List Event
check_comment_at line commentpos linenum =
    event_if (not (matches re_new_scope line) && too_near line commentpos) (
      error linenum (codes "whitespace/comments") 2
        (codes "At least two spaces is best between code and comments"))
    ++ (event_if
          (sticks (drop (commentpos + 2) line) && not (is_drawn (drop (commentpos + 2) line)))
          (error linenum (codes "whitespace/comments") 4
            (codes "Should have a space between // and comment"))
        ++ check_comment (drop commentpos line) linenum)

-- The checks of a comment and of its distance from the code.
unfoldable pub check_beside : Text → ℕ → List Event
unfolding codes is_unquoted
check_beside line linenum = elim (find? line (codes "//")) [
  | none ↦ []
  | some commentpos ↦
      if is_unquoted line commentpos then check_comment_at line commentpos linenum else []
]
