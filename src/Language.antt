-- ===== src/Language.antt =====
-- `CheckLanguage` (clint.py:2532) and, in the children, its rules.
pub mod Casts
pub mod Types
pub mod Calls
pub mod Arrays
pub mod SelfInit
use mit_6172_fa15_project.Base.{
  ℕ, ◌+◌, Bool, true, false, is_some, List, [], ◌∷◌, ◌++◌, Option, none, some, Text, get_elem?,
  if◌then◌else◌, ltb,
}
use mit_6172_fa15_project.Regex.Find.{searches}
use mit_6172_fa15_project.Lint.{Event}
use mit_6172_fa15_project.Lint.Checked.{Checked, pass, and_then, events_then}
use mit_6172_fa15_project.Cleanse.{CleansedLines, re_include}
use mit_6172_fa15_project.FileInfo.Repository.{repository_name}
use mit_6172_fa15_project.Includes.Order.{IncludeState, check_next_include_order}
use mit_6172_fa15_project.Includes.Classify.{classify_include}
use mit_6172_fa15_project.Dict.{has, put}
use mit_6172_fa15_project.Str.{codes, text_eq, decimal}
use mit_6172_fa15_project.Includes.Line.{include_of, new_style_events, check_include_line}
use mit_6172_fa15_project.Language.Casts.{
  check_references, check_function_cast, check_c_style_casts, check_address_of_cast, check_rtti,
}
use mit_6172_fa15_project.Language.Types.{
  check_global_string, check_self_init, check_basic_types, check_operator_and_if, check_using,
  check_disallow, check_unnamed_namespace,
}
use mit_6172_fa15_project.Language.Calls.{
  check_snprintf, check_verboten, check_printf, check_memset,
}
use mit_6172_fa15_project.Language.Arrays.{check_arrays}

-- The rules in front of that on printf.
unfoldable pub check_first_rules : Text → Text → ℕ → List Event
unfolding check_references check_function_cast check_c_style_casts check_address_of_cast
    check_global_string check_rtti check_self_init check_basic_types check_snprintf check_verboten
    check_operator_and_if
check_first_rules filename line linenum =
    check_references line linenum
    ++ (check_function_cast line linenum
        ++ (check_c_style_casts line linenum
            ++ (check_address_of_cast line linenum
                ++ (check_global_string line linenum
                    ++ (check_rtti filename line linenum
                        ++ (check_self_init line linenum
                            ++ (check_basic_types line linenum
                                ++ (check_snprintf line linenum
                                    ++ (check_verboten line linenum
                                        ++ check_operator_and_if line linenum)))))))))

-- The rules behind it.
unfoldable pub check_last_rules : Text → Text → Option Text → ℕ → List Event
unfolding check_memset check_using check_arrays check_disallow check_unnamed_namespace
check_last_rules extension line next_line linenum =
    check_memset line linenum
    ++ (check_using line linenum
        ++ (check_arrays line linenum
            ++ (check_disallow line next_line linenum
                ++ check_unnamed_namespace extension line linenum)))

-- The rules on a line that is not empty and includes nothing.
unfoldable pub check_rules : Text → Text → Text → Option Text → ℕ → Checked Unit
unfolding check_first_rules check_printf check_last_rules
check_rules filename extension line next_line linenum =
    events_then (check_first_rules filename line linenum) (
      and_then (check_printf line linenum)
        (λ _. pass (check_last_rules extension line next_line linenum) tt))

-- The line behind a line, where `linenum + 1 < clean_lines.NumLines()`.
abbrev pub line_behind : CleansedLines → ℕ → Option Text
line_behind clean linenum =
    if ltb (linenum + 1) clean.num_lines then get_elem? clean.elided (linenum + 1) else none

-- Whether CheckIncludeLine asks for the name of the file in its repository: for a new header, to tell
-- what it is, or else for a message on the order.
unfoldable pub needs_name : Option (Text × Text) → ℕ → IncludeState → Bool
unfolding codes
needs_name none linenum s = false
needs_name (some (bracket, include)) linenum s =
    if has include s.included
    then false
    else if text_eq bracket (codes "<")
    then is_some
        (check_next_include_order (classify_include [] include true)
          (record s { included = put include (decimal linenum) s.included })).1
    else true

abbrev include_checked : IncludeState × List Event → Checked IncludeState
include_checked (s, events) = (events, some s)

-- CheckIncludeLine, with the result of RepositoryName; `none` where that does not end and is needed.
unfoldable pub check_include : Text → Option Text → Text → ℕ → IncludeState → Checked IncludeState
unfolding needs_name
check_include filename (some name) line linenum s =
    include_checked (check_include_line filename name line linenum s)
check_include filename none line linenum s =
    if needs_name (include_of line) linenum s
    then (new_style_events line linenum, none)
    else include_checked (check_include_line filename [] line linenum s)

abbrev including : Text → Option Text → Option Text → ℕ → IncludeState → Checked IncludeState
including filename name none linenum s = ([], none)
including filename name (some line) linenum s = check_include filename name line linenum s

module _ (abspath : Text → Text) (exists : Text → Bool) where
  abbrev language_of_text :
      Text → CleansedLines → ℕ → Text → IncludeState → Option Text → Checked IncludeState
  language_of_text filename clean linenum extension s none = ([], none)
  language_of_text filename clean linenum extension s (some []) = pass [] s
  language_of_text filename clean linenum extension s (some (c ∷ line)) =
      if searches re_include (c ∷ line)
      then including filename (repository_name abspath exists filename)
          (get_elem? clean.lines linenum) linenum s
      else and_then (check_rules filename extension (c ∷ line) (line_behind clean linenum) linenum)
          (λ _. pass [] s)

  -- CheckLanguage; `none` is an exception, or a RepositoryName that does not end
  unfoldable pub check_language :
      Text → CleansedLines → ℕ → Text → IncludeState → Checked IncludeState
  unfolding check_rules check_include
  check_language filename clean linenum extension s =
      language_of_text filename clean linenum extension s (get_elem? clean.elided linenum)
