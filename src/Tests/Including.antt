-- ===== src/Tests/Including.antt =====
-- Includes and file names (clint.py:702-789, 2292-2473 and 3003-3122) at concrete inputs.
use mit_6172_fa15_project.Base.{
  none, ◌≡◌, refl, true, false, List, [], ◌∷◌, ◌++◌, Text, some, In, here, there, take, flat_map,
  keep, elem,
}
use mit_6172_fa15_project.Str.{
  codes, replace, split, starts_with, ends_with, text_eq, is_in, decimal,
}
use mit_6172_fa15_project.Dict.{get, put}
use mit_6172_fa15_project.Paths.{path_split, splitext, normpath}
use mit_6172_fa15_project.FileInfo.{split_parts, no_extension, is_source}
use mit_6172_fa15_project.Regex.Sub.{sub}
use mit_6172_fa15_project.Regex.{run, rounds, lazy_rounds}
use mit_6172_fa15_project.Regex.Find.{find_at, search_from}
use mit_6172_fa15_project.Includes.SameModule.{drop_end}
use mit_6172_fa15_project.Includes.Order.{
  c_sys_header, cpp_sys_header, likely_my_header, possible_my_header, other_header,
  initial_include_state,
}
use mit_6172_fa15_project.Includes.Classify.{
  stl_headers, cpp_headers, common_suffixes, has_suffix, drop_suffix, drop_common_suffixes,
  first_component, is_own_directory, classify_include,
}
use mit_6172_fa15_project.Includes.Classify.Own.{classify_include-own}
use mit_6172_fa15_project.Lint.{Event, error}
use mit_6172_fa15_project.Includes.Used.{
  check_for_include_what_you_use, look_into_all, look_into, update_include_state, missing,
  require_lines, require_line, require_all, algorithm_needs, template_needs, re_string,
  is_std_string, without_flymake,
}
use mit_6172_fa15_project.Includes.SameModule.{files_belong_to_same_module}
use mit_6172_fa15_project.Includes.Used.Missing.{
  IsReported, check_for_include_what_you_use-IsReported,
}
use mit_6172_fa15_project.Includes.Line.{include_of, already_included}
use mit_6172_fa15_project.Includes.Line.Repeated.{
  first_include, check_include_lines, included_first, check_include_lines_again,
}

split_test : path_split (codes "chrome/browser/a.c") ≡ (codes "chrome/browser", codes "a.c")
unfolding codes path_split
split_test = refl

splitext_test : splitext (codes "a.b/.rc") ≡ (codes "a.b/.rc", [])
unfolding codes splitext
splitext_test = refl

normpath_test : normpath (codes "foo//./bar/../../public") ≡ codes "public"
unfolding codes normpath split starts_with text_eq
normpath_test = refl

parts_test : no_extension (codes "a/b.c") ≡ codes "a/b"
unfolding codes no_extension split_parts path_split splitext
parts_test = refl

source_test : is_source (codes "a/b.c") ≡ true
unfolding codes is_source split_parts path_split splitext is_in
source_test = refl

internal_test : drop_common_suffixes (codes "foo/foo_internal.h") ≡ codes "foo/foo"
unfolding codes drop_common_suffixes drop_suffix common_suffixes has_suffix ends_with starts_with
    drop_end
internal_test = refl

unusual_test :
    drop_common_suffixes (codes "foo/foo_unusualinternal.h") ≡ codes "foo/foo_unusualinternal"
unfolding codes drop_common_suffixes drop_suffix common_suffixes has_suffix ends_with starts_with
    drop_end splitext
unusual_test = refl

stdio_test : classify_include (codes "foo/foo.c") (codes "stdio.h") true ≡ c_sys_header
unfolding codes classify_include is_in stl_headers cpp_headers
stdio_test = refl

string_test : classify_include (codes "foo/foo.c") (codes "string") true ≡ cpp_sys_header
unfolding codes classify_include is_in stl_headers cpp_headers
string_test = refl

own_test : classify_include (codes "foo/foo.c") (codes "foo/foo.h") false ≡ likely_my_header
unfolding codes classify_include drop_common_suffixes drop_suffix common_suffixes has_suffix
    ends_with starts_with drop_end splitext path_split text_eq is_own_directory
own_test = refl

possible_test :
    classify_include (codes "foo/foo_unknown_extension.c") (codes "bar/foo_other_ext.h") false
    ≡ possible_my_header
unfolding codes classify_include drop_common_suffixes drop_suffix common_suffixes has_suffix
    ends_with starts_with drop_end splitext path_split text_eq is_own_directory first_component
    find_at run flat_map rounds keep elem
possible_test = refl

other_test : classify_include (codes "foo/foo.c") (codes "foo/bar.h") false ≡ other_header
unfolding codes classify_include drop_common_suffixes drop_suffix common_suffixes has_suffix
    ends_with starts_with drop_end splitext path_split text_eq is_own_directory first_component
    find_at run flat_map rounds keep elem
other_test = refl

classify_include-own_example :
    classify_include
      (codes "a/b" ++ b'_' ∷ codes "test.c")
      (codes "a/b" ++ b'-' ∷ codes "inl.h")
      false
    ≡ likely_my_header
unfolding common_suffixes
classify_include-own_example =
    classify_include-own (codes "a/b") b'_' b'-' (codes "test.c") (codes "inl.h") refl refl
      (here refl) (there (there (there (here refl))))

abbrev twice : List Text
twice = codes "#include <stdio.h>" ∷ codes "int a;" ∷ codes "#include \"stdio.h\"" ∷ []

include_test : include_of (codes "#include \"stdio.h\"") ≡ some (codes "\"", codes "stdio.h")
unfolding codes include_of search_from find_at run flat_map rounds keep elem
include_test = refl

first_test : first_include (codes "stdio.h") (take 2 twice) 0 ≡ some (codes "0")
unfolding codes first_include include_of search_from find_at run flat_map rounds keep elem text_eq
    decimal
first_test = refl

included_first_test :
    get
      (codes "stdio.h")
      (check_include_lines (codes "a.c") (codes "a.c") twice 0 initial_include_state).0.included
    ≡ first_include (codes "stdio.h") twice 0
included_first_test = included_first (codes "a.c") (codes "a.c") (codes "stdio.h") twice

check_include_lines_again_example :
    In
      (already_included (codes "a.c") (codes "stdio.h") (codes "0") 2)
      (check_include_lines (codes "a.c") (codes "a.c") twice 0 initial_include_state).1
check_include_lines_again_example =
    check_include_lines_again (codes "a.c") (codes "a.c") (codes "stdio.h") (codes "\"") (codes "0")
      (codes "#include \"stdio.h\"") twice 2 refl include_test first_test

abbrev used_lines : List Text
used_lines = codes "#include <map>" ∷ codes "map<int> m; x(min(a, b));" ∷ []

abbrev asked_event : Event
asked_event =
    error 1 (codes "build/include_what_you_use") 4 (codes "Add #include <algorithm> for min")

asked_test :
    check_for_include_what_you_use
      (λ f. none)
      (codes "a.h")
      (codes "/a.h")
      used_lines
      ((codes "map", codes "0") ∷ [])
    ≡ asked_event ∷ []
unfolding codes check_for_include_what_you_use look_into_all look_into update_include_state missing
    require_lines require_line require_all algorithm_needs template_needs re_string is_std_string
    search_from find_at run flat_map rounds lazy_rounds keep elem put get text_eq
    files_belong_to_same_module without_flymake replace ends_with sub
asked_test = refl

check_for_include_what_you_use-IsReported_example :
    IsReported (λ f. none) used_lines ((codes "map", codes "0") ∷ []) asked_event
check_for_include_what_you_use-IsReported_example =
    check_for_include_what_you_use-IsReported (λ f. none) (codes "a.h") (codes "/a.h") used_lines
      ((codes "map", codes "0") ∷ []) asked_event (rw asked_test (here refl))
