-- ===== src/Tests/Files.antt =====
-- The checks of whole files and the cleansed copies (clint.py:850-1178) at concrete inputs.
use mit_6172_fa15_project.Base.{
  ℕ, ◌≡◌, ◌↔◌, refl, true, false, List, [], ◌∷◌, Text, some, none, length, arith, ◌<◌, flat_map,
  keep, elem, All, In, get_elem?, take, drop,
}
use mit_6172_fa15_project.Str.{
  codes, words, lower, strip, rstrip, starts_with, ends_with, text_eq, find?, replace, contains,
  count, count_char,
}
use mit_6172_fa15_project.Regex.{run, rounds}
use mit_6172_fa15_project.Regex.Find.{search, find_at, search_from}
use mit_6172_fa15_project.Regex.Sub.{sub}
use mit_6172_fa15_project.Comments.{
  opens_comment, closes_comment, find_next, dummy, remove_multi_line_comments_from_range,
  unterminated, remove_multi_line_comments,
}
use mit_6172_fa15_project.Comments.Removal.{
  IsFirst, find_next-IsFirst, IsRemoved, remove_multi_line_comments-IsRemoved,
}
use mit_6172_fa15_project.HeaderGuard.{
  reports, unbound_local_error, argument, check_for_header_guard,
}
use mit_6172_fa15_project.HeaderGuard.Guarded.{
  IsGuarded, unbound_local_error_iff, check_for_header_guard_silent,
}
use mit_6172_fa15_project.FileChecks.{
  has_copyright, check_for_copyright, utf8_error, has_replacement,
  check_for_unicode_replacement_characters,
}
use mit_6172_fa15_project.FileChecks.Reported.{check_for_copyright_silent, check_for_unicode_iff}
use mit_6172_fa15_project.Cleanse.{
  re_include, re_escapes, re_double_quotes, re_single_quotes, re_c_comments, is_cpp_string,
  cleanse_comments, collapse_strings, cleansed_lines,
}
use mit_6172_fa15_project.Cleanse.Quiet.{
  cleansed_lines_aligned, cleanse_comments-cut, cleanse_quiet,
}
use mit_6172_fa15_project.Cleanse.Close.{
  end_char, Reached, extend, start_at, close_expression, StaysOpen, reached, close_expression-none,
  close_expression_misplaced,
}

abbrev commented : List Text
commented = codes "int a;" ∷ codes "/* one" ∷ codes "two */" ∷ codes "int b;" ∷ []

removal_test :
    remove_multi_line_comments commented
    ≡ (codes "int a;" ∷ dummy ∷ dummy ∷ codes "int b;" ∷ [], [])
unfolding codes remove_multi_line_comments find_next opens_comment starts_with strip contains
    closes_comment ends_with remove_multi_line_comments_from_range
removal_test = refl

unclosed_test :
    (remove_multi_line_comments (codes "a" ∷ codes "/* one" ∷ codes "b" ∷ [])).1
    ≡ unterminated 1 ∷ []
unfolding codes remove_multi_line_comments find_next opens_comment starts_with strip contains
    closes_comment ends_with
unclosed_test = refl

remove_multi_line_comments-IsRemoved_example :
    IsRemoved commented
      (remove_multi_line_comments commented).0
      (remove_multi_line_comments commented).1
remove_multi_line_comments-IsRemoved_example = remove_multi_line_comments-IsRemoved commented

find_next-IsFirst_test : IsFirst closes_comment commented 1 (find_next closes_comment commented 1)
find_next-IsFirst_test = find_next-IsFirst closes_comment commented 1 (omega arith)

abbrev guarded : List Text
guarded = codes "#ifndef A_H" ∷ codes "#define A_H" ∷ codes "#endif  // A_H" ∷ []

guarded_test : check_for_header_guard guarded ≡ reports []
unfolding codes check_for_header_guard starts_with words text_eq
guarded_test = refl

unguarded_test : check_for_header_guard (codes "int a;" ∷ []) ≡ unbound_local_error
unfolding codes check_for_header_guard starts_with words text_eq
unguarded_test = refl

unbound_local_error_iff_example :
    (check_for_header_guard (codes "int a;" ∷ []) ≡ unbound_local_error)
    ↔ All (λ line. argument (codes "#ifndef") line ≡ none) (codes "int a;" ∷ [])
unbound_local_error_iff_example = unbound_local_error_iff (codes "int a;" ∷ [])

check_for_header_guard_silent_example :
    (check_for_header_guard guarded ≡ reports []) ↔ ((g : Text) × IsGuarded guarded g)
check_for_header_guard_silent_example = check_for_header_guard_silent guarded

abbrev licence : List Text
licence = codes "// Copyright 2015" ∷ codes "int a;" ∷ []

abbrev marker : Text
marker = codes "// marker so line numbers and indices both start at 1"

copyright_test : check_for_copyright (marker ∷ licence) ≡ []
unfolding codes check_for_copyright has_copyright contains lower
copyright_test = refl

check_for_copyright_silent_test : (check_for_copyright (marker ∷ licence) ≡ []) ↔ (
    (i : ℕ) × (line : Text) × (i < 10)
    × (get_elem? licence i ≡ some line)
    × (has_copyright line ≡ true))
check_for_copyright_silent_test = check_for_copyright_silent marker licence

abbrev broken : List Text
broken = codes "a" ∷ (65533 ∷ []) ∷ []

check_for_unicode_iff_example :
    In (utf8_error 1) (check_for_unicode_replacement_characters broken)
    ↔ ((line : Text) × (get_elem? broken 1 ≡ some line) × (has_replacement line ≡ true))
check_for_unicode_iff_example = check_for_unicode_iff broken 1

collapse_test : collapse_strings (codes "f(\"a b\", 'c');") ≡ codes "f(\"\", '');"
unfolding codes collapse_strings find_at run re_include flat_map rounds keep sub re_escapes
    re_single_quotes re_double_quotes elem
collapse_test = refl

cleanse_test : cleanse_comments (codes "a;  // b") ≡ codes "a;"
unfolding codes cleanse_comments sub find? is_cpp_string count replace rstrip find_at run
    re_c_comments flat_map rounds keep
cleanse_test = refl

cleansed_lines_aligned_test :
    ((cleansed_lines commented).num_lines ≡ length (cleansed_lines commented).elided)
    × ((cleansed_lines commented).num_lines ≡ length (cleansed_lines commented).lines)
    × (get_elem? (cleansed_lines commented).raw_lines 0 ≡ some (codes "int a;"))
    × (get_elem? (cleansed_lines commented).lines 0 ≡ some (cleanse_comments (codes "int a;")))
    × (get_elem? (cleansed_lines commented).elided 0
        ≡ some (cleanse_comments (collapse_strings (codes "int a;"))))
cleansed_lines_aligned_test = cleansed_lines_aligned commented 0 (codes "int a;") refl

abbrev trailing : Text
trailing = codes "a;  // b"

comment_found_test : find? trailing (codes "//") ≡ some 4
unfolding codes find?
comment_found_test = refl

no_string_test : is_cpp_string (take 4 trailing) ≡ false
unfolding codes is_cpp_string count replace
no_string_test = refl

no_block_comment_test : search re_c_comments (rstrip (take 4 trailing)) ≡ none
unfolding codes search_from rstrip find_at run re_c_comments flat_map rounds keep
no_block_comment_test = refl

cleanse_comments-cut_test : cleanse_comments trailing ≡ rstrip (take 4 trailing)
cleanse_comments-cut_test =
    cleanse_comments-cut trailing 4 comment_found_test no_string_test no_block_comment_test

abbrev plain : Text
plain = codes "a = b;"

no_comment_test : find? plain (codes "//") ≡ none
unfolding codes find?
no_comment_test = refl

no_c_comment_test : search re_c_comments plain ≡ none
unfolding codes search_from find_at run re_c_comments flat_map rounds keep
no_c_comment_test = refl

no_escape_test : search re_escapes plain ≡ none
unfolding codes search_from find_at run re_escapes flat_map
no_escape_test = refl

no_single_test : search re_single_quotes plain ≡ none
unfolding codes search_from find_at run re_single_quotes flat_map
no_single_test = refl

no_double_test : search re_double_quotes plain ≡ none
unfolding codes search_from find_at run re_double_quotes flat_map
no_double_test = refl

cleanse_quiet_test :
    (cleanse_comments plain ≡ plain) × (cleanse_comments (collapse_strings plain) ≡ plain)
cleanse_quiet_test =
    cleanse_quiet plain no_comment_test no_c_comment_test no_escape_test no_single_test
      no_double_test

abbrev open_call : List Text
open_call = codes "f(a," ∷ codes "b" ∷ []

at_bracket_test : get_elem? (codes "f(a,") 1 ≡ some b'('
unfolding codes
at_bracket_test = refl

bracket_test : end_char b'(' ≡ some b')'
unfolding codes end_char
bracket_test = refl

close_expression-none_example :
    (close_expression open_call 0 1 ≡ none)
    ↔ StaysOpen b'(' b')' (drop 1 open_call) (start_at b'(' b')' (codes "f(a,") 0)
close_expression-none_example =
    close_expression-none open_call 0 1 b'(' b')' (codes "f(a,") refl at_bracket_test bracket_test

abbrev indexed : List Text
indexed = codes "a[0] = 1;" ∷ []

abbrev indexed_end : Reached
indexed_end = record { line = codes "a[0] = 1;"; linenum = 0; opened = 1; closed = 1 }

at_square_test : get_elem? (codes "a[0] = 1;") 1 ≡ some b'['
unfolding codes
at_square_test = refl

square_test : end_char b'[' ≡ some b']'
unfolding codes end_char
square_test = refl

reached_test :
    reached indexed 0 1 b'[' b']' (codes "a[0] = 1;") refl at_square_test square_test
    ≡ some indexed_end
unfolding codes extend count_char
reached_test = refl

no_round_test : count_char b')' (codes "a[0] = 1;") ≡ 0
unfolding codes count_char
no_round_test = refl

close_expression_misplaced_example :
    close_expression indexed 0 1
    ≡ some (record { line = codes "a[0] = 1;"; linenum = 0; pos = some 0 })
close_expression_misplaced_example =
    close_expression_misplaced indexed 0 1 b'[' b']' (codes "a[0] = 1;") refl at_square_test
      square_test indexed_end reached_test refl no_round_test
