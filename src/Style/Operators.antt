-- ===== src/Style/Operators.antt =====
-- `CheckSpacing` on operators (clint.py:1827-1867), on the elided line.
use mit_6172_fa15_project.Base.{
  ℕ, not, ◌&&◌, List, [], ◌∷◌, ◌++◌, Option, none, some, Text, if◌then◌else◌,
}
use mit_6172_fa15_project.Str.{codes}
use mit_6172_fa15_project.Regex.{Regex, char, star, group}
use mit_6172_fa15_project.Regex.Find.{Hit, search, searches, group_of, or_else}
use mit_6172_fa15_project.Regex.Sub.{sub}
use mit_6172_fa15_project.Regex.Notation.{
  boundary, eol, spaces, is, lit, none_of, solid, is_word, is_blank, ◌▸◌, ◌∣∣◌,
}
use mit_6172_fa15_project.Lint.{Event, error}
use mit_6172_fa15_project.Lint.Checked.{event_if}

-- operator(==|!=|<|<<|<=|>=|>>|>)\(
unfoldable pub re_operator_method : Regex
unfolding lit is
re_operator_method =
    lit "operator"
    ▸ group 1
        (lit "==" ∣∣ lit "!=" ∣∣ lit "<" ∣∣ lit "<<" ∣∣ lit "<=" ∣∣ lit ">=" ∣∣ lit ">>" ∣∣ lit ">")
    ▸ is b'('

-- The line without the operators of operator methods. The replacement keeps its backslash.
unfoldable pub without_operator_methods : Text → Text
unfolding codes
without_operator_methods line = sub re_operator_method (codes "operator\\(") line

abbrev word_or_dot : Regex
word_or_dot = char is_word ∣∣ is b'.'

-- [\w.]=[\w.]
unfoldable pub re_tight_equals : Regex
unfolding is is_word
re_tight_equals = word_or_dot ▸ is b'=' ▸ word_or_dot

-- \b(if|while)
unfoldable pub re_condition : Regex
unfolding boundary lit is
re_condition = boundary ▸ group 1 (lit "if" ∣∣ lit "while") ▸ is b' '

-- [^<>=!\s](==|!=|<=|>=)[^<>=!\s]
unfoldable pub re_tight_comparison : Regex
unfolding solid lit codes
re_tight_comparison =
    solid (codes "<>=!")
    ▸ group 1 (lit "==" ∣∣ lit "!=" ∣∣ lit "<=" ∣∣ lit ">=")
    ▸ solid (codes "<>=!")

-- <[^<]*,\s*$
unfoldable pub re_template_spill : Regex
unfolding is none_of spaces eol
re_template_spill = is b'<' ▸ star (none_of (b'<' ∷ [])) ▸ is b',' ▸ spaces ▸ eol

-- [^<>=!\s](<)[^<>=!\s]([^>]|->)*$
unfoldable pub re_tight_less : Regex
unfolding solid is none_of lit eol codes
re_tight_less =
    solid (codes "<>=!")
    ▸ group 1 (is b'<')
    ▸ solid (codes "<>=!")
    ▸ star (group 2 (none_of (b'>' ∷ []) ∣∣ lit "->"))
    ▸ eol

-- [^0-9\s](<<|>>)[^0-9\s]
unfoldable pub re_tight_shift : Regex
unfolding solid lit codes
re_tight_shift =
    solid (codes "0123456789") ▸ group 1 (lit "<<" ∣∣ lit ">>") ▸ solid (codes "0123456789")

abbrev blank_or_semicolon : Regex
blank_or_semicolon = char is_blank ∣∣ is b';'

-- (!\s|~\s|[\s]--[\s;]|[\s]\+\+[\s;])
unfoldable pub re_loose_unary : Regex
unfolding is is_blank lit
re_loose_unary = group 1 (
    (is b'!' ▸ char is_blank)
    ∣∣ (is b'~' ▸ char is_blank)
    ∣∣ (char is_blank ▸ lit "--" ▸ blank_or_semicolon)
    ∣∣ (char is_blank ▸ lit "++" ▸ blank_or_semicolon))

-- '…%s' % match.group(1), for a pattern that sets the group
unfoldable pub about_group : Text → Option Hit → ℕ → Text → ℕ → List Event
about_group category none confidence message linenum = []
about_group category (some m) confidence message linenum = elim (group_of m 1) [
  | none ↦ []
  | some t ↦ error linenum category confidence (message ++ t) ∷ []
]

-- The comparison, or else the < that opens no list of template parameters, with no space around it.
unfoldable pub tight_comparison : Text → Option Hit
tight_comparison line =
    or_else (search re_tight_comparison line)
      (if searches re_template_spill line then none else search re_tight_less line)

-- The checks of operators.
unfoldable pub check_operators : Text → ℕ → List Event
unfolding codes about_group
check_operators line linenum =
    event_if (searches re_tight_equals line && not (searches re_condition line))
      (error linenum (codes "whitespace/operators") 4 (codes "Missing spaces around ="))
    ++ (about_group (codes "whitespace/operators") (tight_comparison line) 3
          (codes "Missing spaces around ") linenum
        ++ (about_group (codes "whitespace/operators") (search re_tight_shift line) 3
              (codes "Missing spaces around ") linenum
            ++ about_group (codes "whitespace/operators") (search re_loose_unary line) 4
                (codes "Extra space for operator ") linenum))
