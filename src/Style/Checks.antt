-- ===== src/Style/Checks.antt =====
-- `_CHECK_MACROS` and `_CHECK_REPLACEMENT` (clint.py:256-283), `ReplaceableCheck` and `CheckCheck`
-- (clint.py:2096-2161).
pub mod Suggestions
use mit_6172_fa15_project.Base.{
  ℕ, Bool, not, ◌&&◌, List, [], ◌∷◌, ◌++◌, Option, none, some, Text, if◌then◌else◌,
}
use mit_6172_fa15_project.Str.{codes, contains}
use mit_6172_fa15_project.Dict.{get}
use mit_6172_fa15_project.Regex.{Regex, char, group}
use mit_6172_fa15_project.Regex.Find.{matches, searches}
use mit_6172_fa15_project.Regex.Notation.{
  spaces, anything, is, lit, one_of, none_of, plus, opt, is_digit, is_hex, is_any, ◌▸◌, ◌∣∣◌,
}
use mit_6172_fa15_project.Lint.{error}
use mit_6172_fa15_project.Lint.Checked.{Checked}
use mit_6172_fa15_project.Classes.Patterns.{escaped}

-- _CHECK_MACROS
unfoldable pub check_macros : List Text
unfolding codes
check_macros =
    codes "DCHECK"
    ∷ codes "CHECK"
    ∷ codes "EXPECT_TRUE_M"
    ∷ codes "EXPECT_TRUE"
    ∷ codes "ASSERT_TRUE_M"
    ∷ codes "ASSERT_TRUE"
    ∷ codes "EXPECT_FALSE_M"
    ∷ codes "EXPECT_FALSE"
    ∷ codes "ASSERT_FALSE_M"
    ∷ codes "ASSERT_FALSE"
    ∷ []

-- The two lists of operators and replacements.
unfoldable pub straight : List (Text × Text)
unfolding codes
straight =
    (codes "==", codes "EQ")
    ∷ (codes "!=", codes "NE")
    ∷ (codes ">=", codes "GE")
    ∷ (codes ">", codes "GT")
    ∷ (codes "<=", codes "LE")
    ∷ (codes "<", codes "LT")
    ∷ []

unfoldable pub inverted : List (Text × Text)
unfolding codes
inverted =
    (codes "==", codes "NE")
    ∷ (codes "!=", codes "EQ")
    ∷ (codes ">=", codes "LT")
    ∷ (codes ">", codes "LE")
    ∷ (codes "<=", codes "GT")
    ∷ (codes "<", codes "GE")
    ∷ []

-- The entries of one macro: `front` % replacement, with what follows the %s.
unfoldable pub entries : List (Text × Text) → Text → Text → List (Text × Text)
entries [] front back = []
entries ((op, replacement) ∷ l) front back =
    (op, front ++ replacement ++ back) ∷ entries l front back

-- _CHECK_REPLACEMENT
unfoldable pub check_replacement : List (Text × List (Text × Text))
unfolding codes entries straight inverted
check_replacement =
    (codes "DCHECK", entries straight (codes "DCHECK_") [])
    ∷ (codes "CHECK", entries straight (codes "CHECK_") [])
    ∷ (codes "EXPECT_TRUE", entries straight (codes "EXPECT_") [])
    ∷ (codes "ASSERT_TRUE", entries straight (codes "ASSERT_") [])
    ∷ (codes "EXPECT_TRUE_M", entries straight (codes "EXPECT_") (codes "_M"))
    ∷ (codes "ASSERT_TRUE_M", entries straight (codes "ASSERT_") (codes "_M"))
    ∷ (codes "EXPECT_FALSE", entries inverted (codes "EXPECT_") [])
    ∷ (codes "ASSERT_FALSE", entries inverted (codes "ASSERT_") [])
    ∷ (codes "EXPECT_FALSE_M", entries inverted (codes "EXPECT_") (codes "_M"))
    ∷ (codes "ASSERT_FALSE_M", entries inverted (codes "ASSERT_") (codes "_M"))
    ∷ []

-- _CHECK_REPLACEMENT[macro][operator], `none` for a KeyError
unfoldable pub replacement_for : Text → Text → Option Text
unfolding check_replacement
replacement_for macro operator = elim (get macro check_replacement) [
  | none ↦ none
  | some by_operator ↦ get operator by_operator
]

-- ([-+]?(\d+|0[xX][0-9a-fA-F]+)[lLuU]{0,3}|".*"|\'.*\')
unfoldable pub match_constant : Regex
unfolding opt one_of plus is_digit is is_hex is_any codes
match_constant = group 2 (
    (opt (one_of (codes "-+"))
      ▸ group 3 (plus (char is_digit) ∣∣ is b'0' ▸ one_of (codes "xX") ▸ plus (char is_hex))
      ▸ opt (one_of (codes "lLuU"))
      ▸ opt (one_of (codes "lLuU"))
      ▸ opt (one_of (codes "lLuU")))
    ∣∣ (is b'"' ▸ anything ▸ is b'"')
    ∣∣ (is b'\'' ▸ anything ▸ is b'\''))

-- match_this
unfoldable pub match_this : Text → Text → Regex
unfolding spaces escaped is none_of is_any match_constant
match_this operator macro =
    spaces
    ▸ escaped macro
    ▸ is b'('
    ▸ group 1 (
        (spaces
          ▸ match_constant
          ▸ spaces
          ▸ escaped operator
          ▸ none_of (b'<' ∷ b'>' ∷ [])
          ▸ anything)
        ∣∣ (anything
            ▸ none_of (b'<' ∷ b'>' ∷ [])
            ▸ escaped operator
            ▸ spaces
            ▸ match_constant
            ▸ spaces
            ▸ is b')'))

-- NULL|&&|\|\|
unfoldable pub re_complex : Regex
unfolding lit
re_complex = lit "NULL" ∣∣ lit "&&" ∣∣ lit "||"

-- ReplaceableCheck
unfoldable pub replaceable_check : Text → Text → Text → Bool
replaceable_check operator macro line =
    matches (match_this operator macro) line && not (searches re_complex line)

-- current_macro, `none` where the line contains none of the macros
unfoldable pub current_macro : List Text → Text → Option Text
current_macro [] raw = none
current_macro (macro ∷ macros) raw =
    let further = current_macro macros raw in if contains raw macro then some macro else further

-- The operators in the order in which the loop tries them.
unfoldable pub operators : List Text
unfolding codes
operators = codes "==" ∷ codes "!=" ∷ codes ">=" ∷ codes ">" ∷ codes "<=" ∷ codes "<" ∷ []

-- The operator at which the loop breaks.
unfoldable pub first_replaceable : List Text → Text → Text → Option Text
first_replaceable [] macro line = none
first_replaceable (operator ∷ l) macro line =
    let further = first_replaceable l macro line in
    if replaceable_check operator macro line then some operator else further

abbrev pub check_message : Text → Text → Text → Text
check_message replacement macro operator =
    codes "Consider using "
    ++ replacement
    ++ codes " instead of "
    ++ macro
    ++ codes "(a "
    ++ operator
    ++ codes " b)"

abbrev suggest : Text → Text → Option Text → ℕ → Checked Unit
suggest macro operator none linenum = ([], none)
suggest macro operator (some replacement) linenum = (
  error linenum (codes "readability/check") 2 (check_message replacement macro operator) ∷ [],
  some tt,
)

-- CheckCheck on the raw and the elided text of a line; `none` is a KeyError
unfoldable pub check_check : Text → Text → ℕ → Checked Unit
unfolding codes current_macro check_macros operators first_replaceable replacement_for
check_check raw elided linenum = elim (current_macro check_macros raw) [
  | none ↦ ([], some tt)
  | some macro ↦ elim (first_replaceable operators macro elided) [
    | none ↦ ([], some tt)
    | some operator ↦ suggest macro operator (replacement_for macro operator) linenum
  ]
]
