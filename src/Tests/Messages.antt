-- ===== src/Tests/Messages.antt =====
-- Filters, NOLINT comments, counts and the printing of messages (clint.py:153-371, 515-641 and
-- 792-848) at concrete inputs.
use mit_6172_fa15_project.Base.{
  ℕ, ◌≡◌, ◌≢◌, ◌↔◌, inl, refl, Bool, true, false, List, [], ◌∷◌, ◌++◌, Text, some, none, length,
  arith, ◌+◌, if◌then◌else◌, ◌==◌, flat_map, keep, elem, All,
}
use mit_6172_fa15_project.Str.{codes, split, strip_bytes, starts_with, ends_with, text_eq, is_in}
use mit_6172_fa15_project.Regex.{cursor_at, run, rounds}
use mit_6172_fa15_project.Regex.Find.{Hit, search, find_at, search_from, group_of}
use mit_6172_fa15_project.Lint.{
  Report, Event, report, suppress, error, toplevel, CppLintState, initial_state, default_filters,
  set_counting_style, Linter,
}
use mit_6172_fa15_project.Lint.Filters.Flag.{IsAllowed, set_filters-IsAllowed}
use mit_6172_fa15_project.Lint.Filters.{
  set_filters, clean_filters, is_filtered, IsSigned, hides, is_signed, applies, is_filtered_last,
  is_filtered-set_filters,
}
use mit_6172_fa15_project.Lint.Nolint.{
  re_suppression, error_categories, parse_nolint_suppressions, add_suppression,
  is_error_suppressed_by_nolint,
}
use mit_6172_fa15_project.Lint.Nolint.Suppression.{
  both, covers, is_suppressed-add_suppression, suppress_all, parse_nolint_other_lines,
  parse_nolint_bare, parse_nolint_category,
}
use mit_6172_fa15_project.Lint.Counts.{
  count_key, count_of, sum_counts, increment_all, occurrences, increment_all-counts,
  increment_all-sum_counts,
}
use mit_6172_fa15_project.Lint.Emit.{
  should_print_error, error_handler, handle_all, print_report, IsPrintable, Balanced,
  should_print_error_iff, error_handler-printed, handle_all-Balanced,
}

abbrev whitespace_braces : Text
whitespace_braces = codes "whitespace/braces"

abbrev hide_whitespace : Text
hide_whitespace = codes "-whitespace"

abbrev show_build : List Text
show_build = codes "+build" ∷ []

is_filtered_test :
    is_filtered whitespace_braces false (codes "+build" ∷ codes "-whitespace" ∷ []) ≡ some true
unfolding codes is_filtered starts_with
is_filtered_test = refl

IsSigned-test : All IsSigned (show_build ++ hide_whitespace ∷ show_build)
unfolding codes is_signed
IsSigned-test = (refl, (refl, (refl, _)))

applies_test : applies whitespace_braces hide_whitespace ≡ true
unfolding codes starts_with
applies_test = refl

applies_none_test : All (λ g. applies whitespace_braces g ≡ false) show_build
unfolding codes starts_with
applies_none_test = (refl, _)

is_filtered_last_example :
    is_filtered whitespace_braces false (show_build ++ hide_whitespace ∷ show_build)
    ≡ some (hides hide_whitespace)
is_filtered_last_example =
    is_filtered_last whitespace_braces false show_build hide_whitespace show_build IsSigned-test
      applies_test applies_none_test

abbrev flag : Text
flag = codes " +build, -whitespace,"

set_filters_test : (set_filters flag initial_state).1 ≡ true
unfolding codes set_filters default_filters is_signed clean_filters keep split strip_bytes
set_filters_test = refl

is_filtered-set_filters_test :
    (b : Bool) × (is_filtered whitespace_braces false (set_filters flag initial_state).0.filters
      ≡ some b)
is_filtered-set_filters_test =
    is_filtered-set_filters flag whitespace_braces initial_state set_filters_test

set_filters-IsAllowed_example :
    ((set_filters flag initial_state).1 ≡ true) ↔ All IsAllowed (split b',' flag)
set_filters-IsAllowed_example = set_filters-IsAllowed flag initial_state

is_suppressed-add_suppression_example :
    is_error_suppressed_by_nolint (add_suppression none 3 []) whitespace_braces 4 ≡ (
      if both (covers none whitespace_braces) (3 == 4)
      then true
      else is_error_suppressed_by_nolint [] whitespace_braces 4)
is_suppressed-add_suppression_example = is_suppressed-add_suppression none whitespace_braces 3 4 []

abbrev bare : Text
bare = codes "x;  // NOLINT"

abbrev braces_only : Text
braces_only = codes "x;  // NOLINT(whitespace/braces)"

abbrev unknown_category : Text
unknown_category = codes "x;  // NOLINT(nonsense)"

unknown_category_test :
    parse_nolint_suppressions unknown_category 7
    ≡ error 7 (codes "readability/nolint") 5 (codes "Unknown NOLINT error category: nonsense") ∷ []
unfolding codes parse_nolint_suppressions search_from find_at run re_suppression flat_map rounds
    keep elem text_eq starts_with ends_with is_in error_categories
unknown_category_test = refl

apart_test : ◌≢◌ {A = ℕ} 3 4
apart_test h = absurd (omega arith)

parse_nolint_other_lines_example :
    is_error_suppressed_by_nolint
      (suppress_all (parse_nolint_suppressions bare 3) [])
      whitespace_braces
      4
    ≡ is_error_suppressed_by_nolint [] whitespace_braces 4
parse_nolint_other_lines_example = parse_nolint_other_lines bare whitespace_braces 3 4 [] apart_test

abbrev bare_hit : Hit
bare_hit = record {
  start = cursor_at (codes " //  ;x") (codes "NOLINT");
  finish = record { before = codes "TNILON //  ;x"; rest = []; groups = [] };
}

bare_test : search re_suppression bare ≡ some bare_hit
unfolding codes search_from find_at run re_suppression flat_map
bare_test = refl

bare_group_test : group_of bare_hit 1 ≡ none
unfolding codes group_of
bare_group_test = refl

parse_nolint_bare_test :
    is_error_suppressed_by_nolint
      (suppress_all (parse_nolint_suppressions bare 3) [])
      whitespace_braces
      3
    ≡ true
parse_nolint_bare_test =
    parse_nolint_bare bare whitespace_braces 3 [] bare_hit bare_test bare_group_test

abbrev braces_hit : Hit
braces_hit = record {
  start = cursor_at (codes " //  ;x") (codes "NOLINT(whitespace/braces)");
  finish = record {
    before = codes ")secarb/ecapsetihw(TNILON //  ;x";
    rest = [];
    groups = (1, codes "(whitespace/braces)") ∷ [];
  };
}

braces_test : search re_suppression braces_only ≡ some braces_hit
unfolding codes search_from find_at run re_suppression flat_map rounds keep elem
braces_test = refl

braces_group_test : group_of braces_hit 1 ≡ some (b'(' ∷ (whitespace_braces ++ b')' ∷ []))
unfolding codes group_of
braces_group_test = refl

category_test : is_in whitespace_braces error_categories ≡ true
unfolding codes is_in error_categories
category_test = refl

abbrev build_class : Text
build_class = codes "build/class"

parse_nolint_category_example :
    is_error_suppressed_by_nolint
      (suppress_all (parse_nolint_suppressions braces_only 3) [])
      build_class
      3
    ≡ (if text_eq whitespace_braces build_class
        then true
        else is_error_suppressed_by_nolint [] build_class 3)
parse_nolint_category_example =
    parse_nolint_category braces_only whitespace_braces build_class 3 [] braces_hit braces_test
      braces_group_test category_test

abbrev two_errors : List Text
two_errors = whitespace_braces ∷ build_class ∷ whitespace_braces ∷ []

abbrev by_toplevel : CppLintState
by_toplevel = set_counting_style toplevel initial_state

increment_all-counts_example :
    (count_of (codes "whitespace") (increment_all two_errors by_toplevel).errors_by_category
      ≡ count_of (codes "whitespace") by_toplevel.errors_by_category
        + occurrences by_toplevel.counting (codes "whitespace") two_errors)
    × ((increment_all two_errors by_toplevel).error_count
        ≡ by_toplevel.error_count + length two_errors)
increment_all-counts_example = increment_all-counts (codes "whitespace") two_errors by_toplevel

occurrences_test : occurrences toplevel (codes "whitespace") two_errors ≡ 2
unfolding codes occurrences count_key text_eq split
occurrences_test = refl

sum_test : sum_counts by_toplevel.errors_by_category ≡ by_toplevel.error_count
unfolding sum_counts
sum_test = refl

increment_all-sum_counts_example :
    sum_counts (increment_all two_errors by_toplevel).errors_by_category
    ≡ (increment_all two_errors by_toplevel).error_count
increment_all-sum_counts_example =
    increment_all-sum_counts two_errors by_toplevel (inl refl) sum_test

abbrev a_report : Report
a_report = record {
  linenum = 3;
  category = whitespace_braces;
  confidence = 4;
  message = codes "{ should stand at the end";
}

abbrev linter : Linter
linter = record { state = initial_state; suppressions = []; stderr = [] }

should_print_error_iff_example :
    (should_print_error linter whitespace_braces 4 3 ≡ some true) ↔ IsPrintable linter a_report
should_print_error_iff_example = should_print_error_iff linter a_report

should_print_error_test : should_print_error linter whitespace_braces 4 3 ≡ some true
unfolding codes should_print_error is_error_suppressed_by_nolint elem is_filtered default_filters
    starts_with
should_print_error_test = refl

error_handler-printed_test :
    error_handler (codes "a.c") a_report linter ≡ some (print_report (codes "a.c") a_report linter)
error_handler-printed_test =
    error_handler-printed (codes "a.c") a_report linter
      (should_print_error_iff_example.0 should_print_error_test)

abbrev events : List Event
events = suppress none 3 ∷ report a_report ∷ []

filters_test : All IsSigned linter.state.filters
unfolding codes is_signed default_filters
filters_test = (refl, _)

handle_all-Balanced_test :
    (l' : Linter) × (handle_all (codes "a.c") events linter ≡ some l') × Balanced linter l'
handle_all-Balanced_test = handle_all-Balanced (codes "a.c") events linter filters_test
