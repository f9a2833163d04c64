-- ===== src/Style/Blanks.antt =====
-- `CheckSpacing` on a blank line (clint.py:1723-1789).
use mit_6172_fa15_project.Base.{
  ℕ, zero, suc, ◌+◌, ◌-◌, Bool, false, not, ◌&&◌, ◌||◌, List, [], ◌∷◌, ◌++◌, Option, none, some,
  Text, if◌then◌else◌, take, drop, get_elem?, ltb,
}
use mit_6172_fa15_project.Str.{codes, contains, text_eq}
use mit_6172_fa15_project.Regex.{Regex, char, star, group}
use mit_6172_fa15_project.Regex.Find.{Hit, match, matches, group_of}
use mit_6172_fa15_project.Regex.Notation.{spaces, is, lit, none_of, opt, eol, is_word, ◌▸◌, ◌∣∣◌}
use mit_6172_fa15_project.Lint.{Event, error}
use mit_6172_fa15_project.Lint.Checked.{event_if}
use mit_6172_fa15_project.Cleanse.{CleansedLines}
use mit_6172_fa15_project.Cleanse.Close.{rfind}

--  {6}\w
unfoldable pub re_six_deep : Regex
unfolding lit is_word
re_six_deep = lit "      " ▸ char is_word

--  {4}\w[^\(]*\)\s*(const\s*)?(\{\s*$|:) and  {4}:
unfoldable pub re_header_end : Regex
unfolding lit is_word none_of is spaces opt eol
re_header_end =
    lit "    "
    ▸ char is_word
    ▸ star (none_of (b'(' ∷ []))
    ▸ is b')'
    ▸ spaces
    ▸ opt (group 1 (lit "const" ▸ spaces))
    ▸ group 2 (is b'{' ▸ spaces ▸ eol ∣∣ is b':')

unfoldable pub re_initializers : Regex
unfolding lit
re_initializers = lit "    :"

-- \s*}
unfoldable pub re_closing : Regex
unfolding spaces is
re_closing = spaces ▸ is b'}'

-- \s*(public|protected|private):
unfoldable pub re_section : Regex
unfolding spaces is lit
re_section = spaces ▸ group 1 (lit "public" ∣∣ lit "protected" ∣∣ lit "private") ▸ is b':'

abbrev last : List Text → Option Text
last [] = none
last (x ∷ []) = some x
last (x ∷ y ∷ l) = last (y ∷ l)

-- l[linenum - 1]; in front of the first line stands the last one
unfoldable pub line_before : List Text → ℕ → Option Text
line_before l zero = last l
line_before l (suc n) = get_elem? l n

-- The loop over `search_position`, which is one less than the number here, and what follows it.
unfoldable pub has_initializers : List Text → ℕ → Bool
unfolding codes
has_initializers elided zero = false
has_initializers elided (suc search_position) =
    let further = has_initializers elided search_position in
    elim (get_elem? elided search_position) [
      | none ↦ false
      | some line ↦
          if matches re_six_deep line then further else text_eq (take 5 line) (codes "    :")
    ]

-- exception
unfoldable pub is_exception : List Text → Text → ℕ → Bool
is_exception elided prev_line linenum =
    if matches re_six_deep prev_line
    then has_initializers elided (linenum - 1)
    else matches re_header_end prev_line || matches re_initializers prev_line

-- The last { of the line in front stands open, and it is not that of a namespace.
unfoldable pub opens_block : Text → Bool
unfolding codes
opens_block prev_line = elim (rfind b'{' prev_line) [
  | none ↦ false
  | some prevbrace ↦
      not (contains (drop prevbrace prev_line) (codes "}"))
      && not (contains (take prevbrace prev_line) (codes "namespace"))
]

abbrev ends_block_line : Text → Bool
ends_block_line next_line =
    matches re_closing next_line
    && not (contains next_line (codes "namespace"))
    && not (contains next_line (codes "} else "))

-- next_line, where there is one, ends a block
unfoldable pub ends_block : Option Text → Bool
unfolding codes
ends_block none = false
ends_block (some next_line) = ends_block_line next_line

abbrev after_section : Option Hit → ℕ → List Event
after_section none linenum = []
after_section (some m) linenum = elim (group_of m 1) [
  | none ↦ []
  | some section ↦
      error linenum (codes "whitespace/blank_line") 3
        (codes "Do not leave a blank line after \"" ++ section ++ codes ":\"")
      ∷ []
]

-- The checks of a blank line, behind the line `prev_line`.
unfoldable pub check_blank_line : CleansedLines → Text → ℕ → List Event
unfolding codes group_of
check_blank_line clean prev_line linenum =
    event_if (opens_block prev_line && not (is_exception clean.elided prev_line linenum)) (
      error linenum (codes "whitespace/blank_line") 2
        (codes "Blank line at the start of a code block.  Is this needed?"))
    ++ (event_if
          (ltb (linenum + 1) clean.num_lines
            && ends_block (get_elem? clean.raw_lines (linenum + 1)))
          (error linenum (codes "whitespace/blank_line") 3
            (codes "Blank line at the end of a code block.  Is this needed?"))
        ++ after_section (match re_section prev_line) linenum)
