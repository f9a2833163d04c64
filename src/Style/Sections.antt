-- ===== src/Style/Sections.antt =====
-- `CheckSectionSpacing` (clint.py:1947).
use mit_6172_fa15_project.Base.{
  ℕ, zero, suc, ◌+◌, ◌-◌, Bool, not, ◌&&◌, ◌||◌, List, [], ◌++◌, Option, none, some, Text,
  if◌then◌else◌, get_elem?, leb, ltb,
}
use mit_6172_fa15_project.Str.{codes}
use mit_6172_fa15_project.Regex.{Regex, group}
use mit_6172_fa15_project.Regex.Find.{match, searches, group_of}
use mit_6172_fa15_project.Regex.Notation.{boundary, eol, spaces, is, lit, ◌▸◌, ◌∣∣◌}
use mit_6172_fa15_project.Lint.{Event, error}
use mit_6172_fa15_project.Lint.Checked.{Checked, pass, event_if}
use mit_6172_fa15_project.Classes.{ClassInfo}
use mit_6172_fa15_project.LineChecks.{is_blank_line}
use mit_6172_fa15_project.Style.Blanks.{line_before, re_section}

-- \b(class|struct)\b
unfoldable pub re_class_word : Regex
unfolding boundary lit
re_class_word = boundary ▸ group 1 (lit "class" ∣∣ lit "struct") ▸ boundary

-- \{\s*$
unfoldable pub re_open_brace_end : Regex
unfolding is spaces eol
re_open_brace_end = is b'{' ▸ spaces ▸ eol

-- The loop `for i in range(class_info.linenum, linenum)`, `n` rounds from `i` on.
unfoldable pub end_class_head : List Text → ℕ → ℕ → ℕ → ℕ
end_class_head lines otherwise zero i = otherwise
end_class_head lines otherwise (suc n) i =
    let further = end_class_head lines otherwise n (i + 1) in
    elim (get_elem? lines i) [
      | none ↦ otherwise
      | some line ↦ if searches re_open_brace_end line then i else further
    ]

-- The class is small, or the line is not below its first.
unfoldable pub is_exempt : ClassInfo → ℕ → Bool
is_exempt class_info linenum =
    leb class_info.last_line (class_info.linenum + 24) || leb linenum class_info.linenum

-- The class head ends above the line before.
abbrev is_below_head : List Text → ClassInfo → ℕ → Bool
is_below_head lines class_info linenum =
    ltb
      (end_class_head lines class_info.linenum (linenum - class_info.linenum) class_info.linenum
        + 1)
      linenum

-- The line `prev_line` in front of the section is one that the check complains of.
unfoldable pub needs_blank : List Text → ClassInfo → Text → ℕ → Bool
unfolding end_class_head
needs_blank lines class_info prev_line linenum =
    not (is_blank_line prev_line)
    && not (searches re_class_word prev_line)
    && is_below_head lines class_info linenum

abbrev section_error : ℕ → Text → Event
section_error linenum section =
    error linenum (codes "whitespace/blank_line") 3
      (codes "\"" ++ section ++ codes ":\" should be preceded by a blank line")

abbrev pub at_section : List Text → ClassInfo → Option Text → Option Text → ℕ → Checked Unit
at_section lines class_info none prev_line linenum = pass [] tt
at_section lines class_info (some section) none linenum = ([], none)
at_section lines class_info (some section) (some prev_line) linenum =
    pass (event_if (needs_blank lines class_info prev_line linenum) (section_error linenum section))
      tt

-- matched.group(1), where the line starts a section
unfoldable pub section_of : Text → Option Text
unfolding group_of
section_of line = elim (match re_section line) [ none ↦ none | some m ↦ group_of m 1 ]

-- CheckSectionSpacing; `none` is an IndexError
unfoldable pub check_section_spacing : List Text → ClassInfo → ℕ → Checked Unit
unfolding section_of needs_blank codes
check_section_spacing lines class_info linenum =
    if is_exempt class_info linenum then pass [] tt else elim (get_elem? lines linenum) [
      | none ↦ ([], none)
      | some line ↦
          at_section lines class_info (section_of line) (line_before lines linenum) linenum
    ]
