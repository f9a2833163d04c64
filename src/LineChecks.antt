-- ===== src/LineChecks.antt =====
-- Checks of one line: clint.py:1181-1288, 1583, 1671, 1999 and 3128.
pub mod Blank
use mit_6172_fa15_project.Base.{
  ℕ, zero, suc, ◌+◌, ◌-◌, ◌%◌, Bool, true, false, not, ◌&&◌, ◌||◌, List, [], ◌∷◌, ◌++◌, Option,
  none, some, Text, if◌then◌else◌, get_elem?, take, length, ltb, ◌==◌, is_some,
}
use mit_6172_fa15_project.Str.{codes, replace, count, find?, is_alnum, is_space, text_eq}
use mit_6172_fa15_project.Regex.{Regex, eps, star, lazy, char, group}
use mit_6172_fa15_project.Regex.Find.{Hit, match, matches, searches, group_of}
use mit_6172_fa15_project.Regex.Notation.{
  bol, eol, spaces, is, lit, plus, opt, boundary, is_word, is_blank, is_any, ◌▸◌, ◌∣∣◌,
}
use mit_6172_fa15_project.Lint.{Event, error}

-- CheckForMultilineCommentsAndStrings, on the elided line
unfoldable pub check_for_multiline_comments_and_strings : Text → ℕ → List Event
unfolding codes
check_for_multiline_comments_and_strings elided linenum =
    let line = replace (codes "\\\\") [] elided in
    (if ltb (count line (codes "*/")) (count line (codes "/*"))
      then error linenum (codes "readability/multiline_comment") 5 (
          codes
            "Complex multi-line /*...*/-style comment found. Lint may give bogus warnings.  Consider replacing these with //-style comments, with #if 0...#endif, or with more clearly structured multi-line comments.")
        ∷ []
      else [])
    ++ (if (count line (codes "\"") + count line (codes "\\\"")) % 2 == 1
        then error linenum (codes "readability/multiline_string") 5 (
            codes
              "Multi-line string (\"...\") found.  This lint script doesn't do well with such strings, and may give bogus warnings.  They're ugly and unnecessary, and you should use concatenation instead\".")
          ∷ []
        else [])

-- threading_list
unfoldable pub threading_list : List (Text × Text)
unfolding codes
threading_list =
    (codes "asctime(", codes "asctime_r(")
    ∷ (codes "ctime(", codes "ctime_r(")
    ∷ (codes "getgrgid(", codes "getgrgid_r(")
    ∷ (codes "getgrnam(", codes "getgrnam_r(")
    ∷ (codes "getlogin(", codes "getlogin_r(")
    ∷ (codes "getpwnam(", codes "getpwnam_r(")
    ∷ (codes "getpwuid(", codes "getpwuid_r(")
    ∷ (codes "gmtime(", codes "gmtime_r(")
    ∷ (codes "localtime(", codes "localtime_r(")
    ∷ (codes "rand(", codes "rand_r(")
    ∷ (codes "readdir(", codes "readdir_r(")
    ∷ (codes "strtok(", codes "strtok_r(")
    ∷ (codes "ttyname(", codes "ttyname_r(")
    ∷ []

-- line[ix - 1] is no part of a longer name or of a member access
abbrev stands_alone : Text → ℕ → Bool
stands_alone line zero = true
stands_alone line (suc ix) = elim (get_elem? line ix) [
  | none ↦ false
  | some c ↦ not (is_alnum c) && not (c == b'_' || c == b'.' || c == b'>')
]

unfoldable pub is_unsafe_call : Text → Text → Bool
is_unsafe_call line function = elim (find? line function) [
  | none ↦ false
  | some ix ↦ stands_alone line ix
]

abbrev pub threading_error : ℕ → Text → Text → Event
threading_error linenum single multi = error linenum (codes "runtime/threadsafe_fn") 2 (
    codes "Consider using "
    ++ multi
    ++ codes "...) instead of "
    ++ single
    ++ codes "...) for improved thread safety.")

unfoldable pub check_calls : List (Text × Text) → Text → ℕ → List Event
check_calls [] line linenum = []
check_calls ((single, multi) ∷ l) line linenum =
    let rest = check_calls l line linenum in
    if is_unsafe_call line single then threading_error linenum single multi ∷ rest else rest

-- CheckPosixThreading, on the elided line
abbrev pub check_posix_threading : Text → ℕ → List Event
check_posix_threading = check_calls threading_list

-- ^\s*\*\w+(\+\+|--);
unfoldable pub re_invalid_increment : Regex
unfolding bol spaces is plus is_word lit
re_invalid_increment =
    bol ▸ spaces ▸ is b'*' ▸ plus (char is_word) ▸ group 1 (lit "++" ∣∣ lit "--") ▸ is b';'

-- CheckInvalidIncrement, on the elided line
unfoldable pub check_invalid_increment : Text → ℕ → List Event
check_invalid_increment line linenum =
    if matches re_invalid_increment line
    then error linenum (codes "runtime/invalid_increment") 5
        (codes "Changing pointer instead of value (or unused value of operator*).")
      ∷ []
    else []

-- \bmake_pair\s*<
unfoldable pub re_explicit_makepair : Regex
unfolding boundary lit spaces is
re_explicit_makepair = boundary ▸ lit "make_pair" ▸ spaces ▸ is b'<'

-- CheckMakePairUsesDeduction, on the raw line
unfoldable pub check_make_pair_uses_deduction : Text → ℕ → List Event
check_make_pair_uses_deduction line linenum =
    if searches re_explicit_makepair line
    then error linenum (codes "build/explicit_make_pair") 4 (
        codes
          "Omit template arguments from make_pair OR use pair directly OR if appropriate, construct a pair directly")
      ∷ []
    else []

-- ^//(\s*)TODO(\(.+?\))?:?(\s|$)?
unfoldable pub re_todo : Regex
unfolding bol lit spaces opt is is_any eol is_blank
re_todo =
    bol
    ▸ lit "//"
    ▸ group 1 spaces
    ▸ lit "TODO"
    ▸ opt (group 2 (is b'(' ▸ char is_any ▸ lazy (char is_any) ▸ is b')'))
    ▸ opt (is b':')
    ▸ opt (group 3 (char is_blank ∣∣ eol))

abbrev group_length : Option Text → ℕ
group_length none = 0
group_length (some t) = length t

-- middle_whitespace != ' ' and middle_whitespace != ''; a group that is not set is None
abbrev is_spaced : Option Text → Bool
is_spaced none = false
is_spaced (some t) = text_eq t (codes " ") || text_eq t []

abbrev check_todo : Hit → ℕ → List Event
check_todo m linenum =
    (if ltb 1 (group_length (group_of m 1))
      then error linenum (codes "whitespace/todo") 2 (codes "Too many spaces before TODO") ∷ []
      else [])
    ++ (if is_some (group_of m 2)
        then []
        else error linenum (codes "readability/todo") 2
            (codes "Missing username in TODO; it should look like \"// TODO(my_username): Stuff.\"")
          ∷ [])
    ++ (if is_spaced (group_of m 3)
        then []
        else error linenum (codes "whitespace/todo") 2
            (codes "TODO(my_username) should be followed by a space")
          ∷ [])

-- CheckComment
unfoldable pub check_comment : Text → ℕ → List Event
unfolding group_of
check_comment comment linenum = elim (match re_todo comment) [
  | none ↦ []
  | some m ↦ check_todo m linenum
]

abbrev all_space : Text → Bool
all_space [] = true
all_space (x ∷ xs) = if is_space x then all_space xs else false

-- IsBlankLine
unfoldable pub is_blank_line : Text → Bool
is_blank_line line = all_space line

-- GetPreviousNonBlankLine, from the line in front of `linenum` down; `none` is ('', -1)
unfoldable pub get_previous_non_blank_line : List Text → ℕ → Option (Text × ℕ)
get_previous_non_blank_line elided zero = none
get_previous_non_blank_line elided (suc prevlinenum) =
    let further = get_previous_non_blank_line elided prevlinenum in
    elim (get_elem? elided prevlinenum) [
      | none ↦ further
      | some prevline ↦ if is_blank_line prevline then further else some (prevline, prevlinenum)
    ]
