-- ===== src/Style.antt =====
-- `CheckStyle` (clint.py:2186) and, in the children, what it calls.
pub mod Blanks
pub mod Beside
pub mod Operators
pub mod Parens
pub mod Spacing
pub mod Sections
pub mod Checks
pub mod Braces
pub mod Width
pub mod Returns
use mit_6172_fa15_project.Base.{
  ℕ, ◌+◌, Bool, true, false, not, ◌&&◌, ◌||◌, List, [], ◌∷◌, ◌++◌, Option, none, some, Text,
  if◌then◌else◌, ltb, ◌==◌, get_elem?, reverse, take,
}
use mit_6172_fa15_project.Str.{codes, contains, count_char, starts_with, is_space, text_eq}
use mit_6172_fa15_project.Regex.{Regex, char, star, group}
use mit_6172_fa15_project.Regex.Find.{matches, searches}
use mit_6172_fa15_project.Regex.Notation.{
  bol, eol, spaces, word, anything, digits, is, lit, none_of, opt, plus, is_word, is_any, is_blank,
  is_digit, ◌▸◌,
}
use mit_6172_fa15_project.Lint.{Event, error}
use mit_6172_fa15_project.Lint.Checked.{Checked, pass, and_then, events_then, event_if}
use mit_6172_fa15_project.Cleanse.{CleansedLines}
use mit_6172_fa15_project.Classes.{ClassStack}
use mit_6172_fa15_project.HeaderGuard.Variable.{header_guard_variable}
use mit_6172_fa15_project.Style.Braces.{previous, check_braces}
use mit_6172_fa15_project.Style.Spacing.{check_spacing}
use mit_6172_fa15_project.Style.Checks.{check_check}
use mit_6172_fa15_project.Style.Sections.{check_section_spacing}
use mit_6172_fa15_project.Style.Width.{UnicodeData, get_line_width}

-- \s*\w+\s*:\s*$
unfoldable pub re_label : Regex
unfolding spaces plus is_word is eol
re_label = spaces ▸ word ▸ spaces ▸ is b':' ▸ spaces ▸ eol

-- [^:]:\s*$
unfoldable pub re_colon_end : Regex
unfolding none_of is spaces eol
re_colon_end = none_of (b':' ∷ []) ▸ is b':' ▸ spaces ▸ eol

-- ^\s*//.*http(s?)://\S*$
unfoldable pub re_url : Regex
unfolding bol spaces lit is_any opt is eol
re_url =
    bol
    ▸ spaces
    ▸ lit "//"
    ▸ anything
    ▸ lit "http"
    ▸ group 1 (opt (is b's'))
    ▸ lit "://"
    ▸ star (char (λ c. not (is_blank c)))
    ▸ eol

-- ^// \$Id:.*#[0-9]+ \$$
unfoldable pub re_id : Regex
unfolding bol lit is_any plus is_digit eol
re_id = bol ▸ lit "// $Id:" ▸ anything ▸ lit "#" ▸ digits ▸ lit " $" ▸ eol

unfoldable pub initial_spaces : Text → ℕ
initial_spaces [] = 0
initial_spaces (c ∷ line) = let rest = initial_spaces line in if c == b' ' then rest + 1 else 0

abbrev starts_blank : Text → Bool
starts_blank [] = false
starts_blank (c ∷ line) = is_space c

-- line and line[-1].isspace()
unfoldable pub ends_in_space : Text → Bool
unfolding is_space
ends_in_space line = starts_blank (reverse line)

-- The chain of tests on the ends of the line.
unfoldable pub check_indent : Text → Text → ℕ → List Event
unfolding codes ends_in_space initial_spaces
check_indent line cleansed_line linenum =
    let n = initial_spaces line in
    if ends_in_space line
    then error linenum (codes "whitespace/end_of_line") 4
        (codes "Line ends in whitespace.  Consider deleting these extra spaces.")
      ∷ []
    else if (n == 1 || n == 3) && not (matches re_label cleansed_line)
    then error linenum (codes "whitespace/indent") 3
        (codes "Weird number of spaces at line-start.  Are you using a 2-space indent?")
      ∷ []
    else event_if (n == 0 && not (text_eq (take 2 line) (codes "//")) && searches re_colon_end line)
        (error linenum (codes "whitespace/labels") 4 (
          codes
            "Labels should always be indented at least one space.  If this is a member-initializer list in a constructor or the base class list in a class definition, the colon should be on the following line."))

unfoldable pub names_guard : Text → Text → Bool
unfolding codes
names_guard line cppvar =
    starts_with line (codes "#ifndef " ++ cppvar)
    || starts_with line (codes "#define " ++ cppvar)
    || starts_with line (codes "#endif  // " ++ cppvar)

-- A line that may be long.
unfoldable pub may_be_long : Text → Bool → Bool
unfolding codes
may_be_long line is_header_guard =
    starts_with line (codes "#include")
    || is_header_guard
    || matches re_url line
    || matches re_id line

-- More than one command on a line; `prevline` is the line that GetPreviousNonBlankLine finds.
unfoldable pub is_crowded : Text → Text → Bool
unfolding codes
is_crowded prevline line =
    ltb 1 (count_char b';' line)
    && not (contains line (codes "for"))
    && (not (contains prevline (codes "for")) || contains prevline (codes ";"))
    && not (
        (contains line (codes "case ") || contains line (codes "default:"))
        && contains line (codes "break;"))

-- The check of CheckSectionSpacing, where the line is in a class.
abbrev pub in_class : CleansedLines → ℕ → ClassStack → Checked Unit
in_class clean linenum [] = pass [] tt
in_class clean linenum (class_info ∷ stack) = check_section_spacing clean.lines class_info linenum

-- The functions that CheckStyle calls, in their order.
unfoldable pub check_more : CleansedLines → Text → Text → ℕ → ClassStack → Checked Unit
unfolding and_then
check_more clean line cleansed_line linenum class_state =
    and_then (check_braces clean.elided cleansed_line linenum) (λ _.
      and_then (check_spacing clean line cleansed_line linenum) (λ _.
        and_then (check_check line cleansed_line linenum)
          (λ _. in_class clean linenum class_state)))

-- What the checks ask of the system.
pub record System : Type 0 where
  -- os.path.abspath and os.path.exists
  pub abspath : Text → Text
  pub exists : Text → Bool
  pub unicodedata : UnicodeData

module _ (system : System) where
  -- is_header_guard; `none` where GetHeaderGuardCPPVariable does not end
  unfoldable pub is_header_guard : Text → Text → Text → Option Bool
  unfolding codes
  is_header_guard filename extension line =
      if text_eq extension (codes "h")
      then elim (header_guard_variable system.abspath system.exists filename) [
        | none ↦ none
        | some cppvar ↦ some (names_guard line cppvar)
      ]
      else some false

  -- The width of the line, and the commands on it.
  unfoldable pub check_length : CleansedLines → Text → Text → ℕ → Bool → List Event
  unfolding codes
  check_length clean line cleansed_line linenum header_guard =
      event_if
        (not (may_be_long line header_guard) && ltb 100 (get_line_width system.unicodedata line))
        (error linenum (codes "whitespace/line_length") 4
          (codes "Lines should very rarely be longer than 100 characters"))
      ++ event_if (is_crowded (previous clean.elided linenum).0 cleansed_line) (
          error linenum (codes "whitespace/newline") 4
            (codes "More than one command on the same line"))

  abbrev pub with_guard : CleansedLines → Text → Text → ℕ → ClassStack → Option Bool → Checked Unit
  with_guard clean line cleansed_line linenum class_state none = ([], none)
  with_guard clean line cleansed_line linenum class_state (some header_guard) =
      events_then (check_length clean line cleansed_line linenum header_guard)
        (check_more clean line cleansed_line linenum class_state)

  abbrev pub style_of_texts :
      Text → CleansedLines → ℕ → Text → ClassStack → Option Text → Option Text → Checked Unit
  style_of_texts filename clean linenum extension class_state (some line) (some cleansed_line) =
      events_then
        (event_if (contains line (codes "\t"))
            (error linenum (codes "whitespace/tab") 1 (codes "Tab found; better to use spaces"))
          ++ check_indent line cleansed_line linenum)
        (with_guard clean line cleansed_line linenum class_state
          (is_header_guard filename extension line))
  style_of_texts filename clean linenum extension class_state _ _ = ([], none)

  -- CheckStyle
  unfoldable pub check_style : Text → CleansedLines → ℕ → Text → ClassStack → Checked Unit
  unfolding codes is_header_guard check_length check_more
  check_style filename clean linenum extension class_state =
      style_of_texts filename clean linenum extension class_state
        (get_elem? clean.raw_lines linenum) (get_elem? clean.elided linenum)
