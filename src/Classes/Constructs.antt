-- ===== src/Classes/Constructs.antt =====
-- `CheckForNonStandardConstructs` (clint.py:1347).
use mit_6172_fa15_project.Base.{
  ℕ, List, [], ◌∷◌, ◌++◌, Option, none, some, Text, if◌then◌else◌, get_elem?,
}
use mit_6172_fa15_project.Str.{codes, replace}
use mit_6172_fa15_project.Regex.Find.{matches, searches}
use mit_6172_fa15_project.Lint.{Event, error}
use mit_6172_fa15_project.Cleanse.{CleansedLines}
use mit_6172_fa15_project.Classes.{ClassStack, track_classes}
use mit_6172_fa15_project.Classes.Patterns.{
  re_quad, re_positional, re_undefined_escape, re_storage_class, re_endif_text, re_inner_forward,
  re_min_max, re_string_member,
}

-- The tests on a line without comments.
unfoldable pub check_formats : Text → ℕ → List Event
check_formats line linenum =
    (if searches re_quad line
      then error linenum (codes "runtime/printf_format") 3
          (codes "%q in format strings is deprecated.  Use %ll instead.")
        ∷ []
      else [])
    ++ (if searches re_positional line
        then error linenum (codes "runtime/printf_format") 2
            (codes "%N$ formats are unconventional.  Try rewriting to avoid them.")
          ∷ []
        else [])
    ++ (if searches re_undefined_escape (replace (codes "\\\\") [] line)
        then error linenum (codes "build/printf_format") 3
            (codes "%, [, (, and { are undefined character escapes.  Unescape them.")
          ∷ []
        else [])

-- The tests on an elided line that keep no state.
unfoldable pub check_declarations : Text → ℕ → List Event
check_declarations line linenum =
    (if searches re_storage_class line
      then error linenum (codes "build/storage_class") 5
          (codes "Storage class (static, extern, typedef, etc) should be first.")
        ∷ []
      else [])
    ++ (if matches re_endif_text line
        then error linenum (codes "build/endif_comment") 5
            (codes "Uncommented text after #endif is non-standard.  Use a comment.")
          ∷ []
        else [])
    ++ (if matches re_inner_forward line
        then error linenum (codes "build/forward_decl") 5
            (codes "Inner-style forward declarations are invalid.  Remove this line.")
          ∷ []
        else [])
    ++ (if searches re_min_max line
        then error linenum (codes "build/deprecated") 3
            (codes ">? and <? (max and min) operators are non-standard and deprecated.")
          ∷ []
        else [])
    ++ (if searches re_string_member line
        then error linenum (codes "runtime/member_string_references") 2 (
            codes
              "const string& members are dangerous. It is much better to use alternatives, such as pointers or simple constants.")
          ∷ []
        else [])

abbrev on_line :
    List Text → ℕ → ClassStack → Option Text → Option Text → Option (ClassStack × List Event)
on_line lines linenum stack (some line) (some elided) =
    let (stack', events) = track_classes lines elided linenum stack in
    some (stack', check_formats line linenum ++ (check_declarations elided linenum ++ events))
on_line lines linenum stack _ _ = none

-- CheckForNonStandardConstructs; `none` is an index out of range
unfoldable pub check_for_non_standard_constructs :
    CleansedLines → ℕ → ClassStack → Option (ClassStack × List Event)
unfolding check_formats check_declarations
check_for_non_standard_constructs clean linenum stack =
    on_line clean.lines linenum stack (get_elem? clean.lines linenum)
      (get_elem? clean.elided linenum)
