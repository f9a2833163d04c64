-- ===== src/FileChecks.antt =====
-- The checks that read a whole file: `CheckForCopyright` (clint.py:1033),
-- `CheckForUnicodeReplacementCharacters` (clint.py:1144) and `CheckForNewlineAtEOF` (clint.py:1163).
pub mod Reported
use mit_6172_fa15_project.Base.{
  ℕ, suc, ◌+◌, ◌-◌, Bool, true, false, List, [], ◌∷◌, ◌++◌, Option, none, some, Text, if◌then◌else◌,
  get_elem?, take, drop, length, any, ltb, elem,
}
use mit_6172_fa15_project.Str.{codes, lower, contains}
use mit_6172_fa15_project.Lint.{Event, error}

-- re.search(r'Copyright', line, re.I)
unfoldable pub has_copyright : Text → Bool
unfolding codes
has_copyright line = contains (lower line) (codes "copyright")

-- lines[1] up to lines[min(len(lines), 11) - 1]
abbrev pub top_lines : List Text → List Text
top_lines lines = take 10 (drop 1 lines)

-- CheckForCopyright
unfoldable pub check_for_copyright : List Text → List Event
unfolding any
check_for_copyright lines =
    if any has_copyright (top_lines lines)
    then []
    else error 0 (codes "legal/copyright") 5 (
        codes
          "No copyright message found.  You should have a line: \"Copyright [year] <Copyright Owner>\"")
      ∷ []

abbrev pub utf8_error : ℕ → Event
utf8_error linenum =
    error linenum (codes "readability/utf8") 5
      (codes "Line contains invalid UTF-8 (or Unicode replacement character).")

-- u'\ufffd' in line
abbrev pub has_replacement : Text → Bool
has_replacement line = elem 0xfffd line

-- CheckForUnicodeReplacementCharacters, from the line at `linenum` on
unfoldable pub check_unicode_from : ℕ → List Text → List Event
check_unicode_from linenum [] = []
check_unicode_from linenum (line ∷ lines) =
    let rest = check_unicode_from (linenum + 1) lines in
    if has_replacement line then utf8_error linenum ∷ rest else rest

abbrev pub check_for_unicode_replacement_characters : List Text → List Event
check_for_unicode_replacement_characters = check_unicode_from 0

abbrev is_empty : Option Text → Bool
is_empty none = false
is_empty (some []) = true
is_empty (some _) = false

-- CheckForNewlineAtEOF; the marker lines make `lines` longer than the 2 that are taken off
unfoldable pub check_for_newline_at_eof : List Text → List Event
check_for_newline_at_eof lines =
    let missing =
      error (length lines - 2) (codes "whitespace/ending_newline") 5
        (codes "Could not find a newline character at the end of the file.")
      ∷ [] in
    if ltb (length lines) 3
    then missing
    else if is_empty (get_elem? lines (length lines - 2))
    then []
    else missing
