-- ===== src/Includes/Line.antt =====
-- `CheckIncludeLine` (clint.py:2407).
pub mod Repeated
use mit_6172_fa15_project.Base.{
  ℕ, ◌+◌, Bool, true, false, not, List, [], ◌∷◌, ◌++◌, Option, none, some, Text, if◌then◌else◌,
}
use mit_6172_fa15_project.Str.{codes, decimal, text_eq}
use mit_6172_fa15_project.Dict.{get, put}
use mit_6172_fa15_project.FileInfo.{base_name}
use mit_6172_fa15_project.Regex.{Regex, eps, group}
use mit_6172_fa15_project.Regex.Find.{Hit, search, match, matches, searches, group_of}
use mit_6172_fa15_project.Regex.Notation.{is, lit, none_of, plus, opt, eol, ◌▸◌, ◌∣∣◌}
use mit_6172_fa15_project.Lint.{Event, error}
use mit_6172_fa15_project.Cleanse.{re_include}
use mit_6172_fa15_project.Includes.Order.{
  IncludeState, check_next_include_order, is_in_alphabetical_order,
}
use mit_6172_fa15_project.Includes.Classify.{classify_include, is_test_filename}

-- _RE_PATTERN_INCLUDE_NEW_STYLE: #include +"[^/]+\.h"
unfoldable pub re_include_new_style : Regex
unfolding lit plus is none_of
re_include_new_style =
    lit "#include" ▸ plus (is b' ') ▸ is b'"' ▸ plus (none_of (b'/' ∷ [])) ▸ lit ".h\""

-- (f|ind|io|i|o|parse|pf|stdio|str|)?stream$
unfoldable pub re_stream : Regex
unfolding lit opt eol
re_stream =
    opt (
      group 1 (
        lit "f"
        ∣∣ lit "ind"
        ∣∣ lit "io"
        ∣∣ lit "i"
        ∣∣ lit "o"
        ∣∣ lit "parse"
        ∣∣ lit "pf"
        ∣∣ lit "stdio"
        ∣∣ lit "str"
        ∣∣ eps))
    ▸ lit "stream"
    ▸ eol

-- The groups 1 and 2 of a match of _RE_PATTERN_INCLUDE, which takes both.
abbrev include_parts : Option Text → Option Text → Option (Text × Text)
include_parts (some bracket) (some include) = some (bracket, include)
include_parts _ _ = none

abbrev include_in : Option Hit → Option (Text × Text)
include_in none = none
include_in (some m) = include_parts (group_of m 1) (group_of m 2)

-- The bracket and the header that a line includes.
unfoldable pub include_of : Text → Option (Text × Text)
unfolding re_include group_of
include_of line = include_in (search re_include line)

unfoldable pub already_included : Text → Text → Text → ℕ → Event
already_included filename include value linenum =
    error linenum (codes "build/include") 4
      (codes "\"" ++ include ++ codes "\" already included at " ++ filename ++ codes ":" ++ value)

abbrev order_events : Text → ℕ → Option Text → List Event
order_events repository_name linenum none = []
order_events repository_name linenum (some error_message) =
    error linenum (codes "build/include_order") 4 (
      error_message
      ++ codes ". Should be: "
      ++ base_name repository_name
      ++ codes ".h, c system, c++ system, other.")
    ∷ []

abbrev alphabet_events : Text → ℕ → Bool → List Event
alphabet_events include linenum true = []
alphabet_events include linenum false =
    error linenum (codes "build/include_alpha") 4
      (codes "Include \"" ++ include ++ codes "\" not in alphabetical order")
    ∷ []

-- What happens to a header that was not included before.
unfoldable pub add_include : Text → Text → Bool → ℕ → IncludeState → IncludeState × List Event
add_include repository_name include is_system linenum s =
    let s' = record s { included = put include (decimal linenum) s.included } in
    let (s'', message) =
      check_next_include_order (classify_include repository_name include is_system) s' in
    let (s3, sorted) = is_in_alphabetical_order include s'' in
    (s3, order_events repository_name linenum message ++ alphabet_events include linenum sorted)

abbrev known_or_new :
    Text → Text → Text → Bool → ℕ → IncludeState → Option Text → IncludeState × List Event
known_or_new filename repository_name include is_system linenum s (some value) =
    (s, already_included filename include value linenum ∷ [])
known_or_new filename repository_name include is_system linenum s none =
    add_include repository_name include is_system linenum s

abbrev pub record_include :
    Text → Text → ℕ → IncludeState → Option (Text × Text) → IncludeState × List Event
record_include filename repository_name linenum s none = (s, [])
record_include filename repository_name linenum s (some (bracket, include)) =
    known_or_new filename repository_name include (text_eq bracket (codes "<")) linenum s
      (get include s.included)

abbrev stream_events : Text → ℕ → Option (Text × Text) → List Event
stream_events filename linenum none = []
stream_events filename linenum (some (bracket, include)) =
    if matches re_stream include
    then (if is_test_filename filename
        then []
        else error linenum (codes "readability/streams") 3 (codes "Streams are highly discouraged.")
          ∷ [])
    else []

unfoldable pub new_style_events : Text → ℕ → List Event
new_style_events line linenum =
    if searches re_include_new_style line
    then error linenum (codes "build/include") 4
        (codes "Include the directory when naming .h files")
      ∷ []
    else []

-- CheckIncludeLine on the line without comments; `repository_name` is that of `FileInfo(filename)`
unfoldable pub check_include_line :
    Text → Text → Text → ℕ → IncludeState → IncludeState × List Event
unfolding new_style_events
check_include_line filename repository_name line linenum s =
    let (s', events) = record_include filename repository_name linenum s (include_of line) in
    (
      s',
      new_style_events line linenum
          ++ (events ++ stream_events filename linenum (include_in (match re_include line))),
    )
