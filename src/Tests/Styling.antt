-- ===== src/Tests/Styling.antt =====
-- The rules on style (clint.py:2022-2289) at concrete inputs.
use mit_6172_fa15_project.Regex.Sub.{sub}
use mit_6172_fa15_project.Regex.Notation.{is_word}
use mit_6172_fa15_project.LineChecks.{is_blank_line, get_previous_non_blank_line}
use mit_6172_fa15_project.Regex.{rounds, run}
use mit_6172_fa15_project.Regex.Find.{search_from, find_at}
use mit_6172_fa15_project.Base.{
  true, false, List, [], ◌∷◌, some, none, Text, ◌≡◌, ◌↔◌, ◌⊎◌, refl, elem, flat_map, keep, arith,
  All, length, ◌+◌,
}
use mit_6172_fa15_project.Str.{starts_with, count_char, codes}
use mit_6172_fa15_project.Cleanse.{CleansedLines}
use mit_6172_fa15_project.HeaderGuard.Variable.{re_separator, guard_name}
use mit_6172_fa15_project.HeaderGuard.Variable.Letters.{
  IsPlain, IsMacroChar, guard_name-IsMacroChar,
}
use mit_6172_fa15_project.Style.{System, is_header_guard, check_style}
use mit_6172_fa15_project.Style.Returns.{check_style-none}
use mit_6172_fa15_project.Style.Checks.{check_check}
use mit_6172_fa15_project.Style.Checks.Suggestions.{Suggestion, check_check-Suggestion}
use mit_6172_fa15_project.Style.Braces.{re_indented, join_lines}
use mit_6172_fa15_project.Style.Braces.Ends.{IsStuck, join_lines-none}
use mit_6172_fa15_project.Style.Braces.Returns.{IsUnclosed}
use mit_6172_fa15_project.Regex.Sub.{split_by}
use mit_6172_fa15_project.Language.Arrays.{
  re_macro, re_qualified_constant, re_constant, re_hexadecimal, re_arraysize, re_sizeof, verdict_on,
  re_delimiter, is_const,
}
use mit_6172_fa15_project.Language.Types.{initializes_itself}
use mit_6172_fa15_project.Language.SelfInit.{Initializes, initializes_itself_iff}

-- A line with braces under a line of comment only.
abbrev stuck_lines : List Text
stuck_lines = [] ∷ codes "  {1};" ∷ []

join_lines-none_example :
    (join_lines 3 stuck_lines (codes "  {1};") 1 ≡ none) ↔ IsStuck stuck_lines (codes "  {1};") 1
join_lines-none_example = join_lines-none stuck_lines (codes "  {1};") 1 3 (omega arith)

stuck_test : join_lines 3 stuck_lines (codes "  {1};") 1 ≡ none
unfolding join_lines codes find_at run re_indented flat_map rounds keep count_char
    get_previous_non_blank_line is_blank_line
stuck_test = refl

check_check-Suggestion_example :
    (check_check (codes "  EXPECT_FALSE(x == 3);") (codes "  EXPECT_FALSE(x == 3);") 7
      ≡ ([], some tt))
    ⊎ Suggestion
        (codes "  EXPECT_FALSE(x == 3);")
        (codes "  EXPECT_FALSE(x == 3);")
        7
        (check_check (codes "  EXPECT_FALSE(x == 3);") (codes "  EXPECT_FALSE(x == 3);") 7)
check_check-Suggestion_example =
    check_check-Suggestion (codes "  EXPECT_FALSE(x == 3);") (codes "  EXPECT_FALSE(x == 3);") 7

initializes_itself_iff_example :
    (initializes_itself [] (codes ": count_(count_) {") ≡ true)
    ↔ Initializes [] (codes ": count_(count_) {")
initializes_itself_iff_example = initializes_itself_iff (codes ": count_(count_) {")

self_init_test : initializes_itself [] (codes ": count_(count_) {") ≡ true
unfolding initializes_itself codes starts_with
self_init_test = refl

IsPlain-test : All IsPlain (codes "a/b-c.h")
unfolding IsPlain codes is_word elem
IsPlain-test = (refl, (refl, (refl, (refl, (refl, (refl, (refl, tt)))))))

guard_name-IsMacroChar_example :
    All IsMacroChar (guard_name (codes "a/b-c.h"))
    × (length (guard_name (codes "a/b-c.h")) ≡ length (codes "a/b-c.h") + 1)
guard_name-IsMacroChar_example = guard_name-IsMacroChar (codes "a/b-c.h") IsPlain-test

guard_name_test : guard_name (codes "a/b-c.h") ≡ codes "A_B_C_H_"
unfolding guard_name codes sub find_at run re_separator elem
guard_name_test = refl

abbrev system : System
system = record {
  abspath = λ filename. filename;
  exists = λ path. false;
  unicodedata = record {
    normalize = λ s. s;
    east_asian_width = λ c. codes "N";
    is_combining = λ c. false;
  };
}

abbrev stuck_file : CleansedLines
stuck_file = record {
  elided = stuck_lines;
  lines = stuck_lines;
  raw_lines = codes "// a" ∷ codes "  {1};" ∷ [];
  num_lines = 2;
}

check_style-none_example :
    ((check_style system (codes "a.h") stuck_file 1 (codes "h") []).1 ≡ none) ↔ (
      (is_header_guard system (codes "a.h") (codes "h") (codes "  {1};") ≡ none)
      ⊎ IsUnclosed stuck_lines (codes "  {1};") 1
      ⊎ IsStuck stuck_lines (codes "  {1};") 1)
check_style-none_example =
    check_style-none system (codes "a.h") (codes "h") stuck_file 1 [] (codes "  {1};")
      (codes "  {1};") (codes "  {1};") refl refl refl

-- A shift is no delimiter, so that a constant size with one is reported.
shift_test : is_const false (split_by re_delimiter (codes "kA >> 2")) ≡ false
unfolding is_const codes split_by find_at run re_delimiter flat_map verdict_on search_from re_sizeof
    re_arraysize re_hexadecimal re_constant rounds re_qualified_constant keep re_macro starts_with
shift_test = refl

sum_test : is_const false (split_by re_delimiter (codes "kA + sizeof(int) * 2")) ≡ true
unfolding is_const codes split_by find_at run re_delimiter flat_map verdict_on search_from re_sizeof
    re_arraysize re_hexadecimal re_constant rounds keep
sum_test = refl
