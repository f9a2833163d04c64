-- ===== src/Tests/Processing.antt =====
-- The run over files (clint.py:3150-3389) at concrete inputs, with rules of which only one reports.
use mit_6172_fa15_project.Base.{
  elem, keep, flat_map, if◌then◌else◌, ◌≡◌, refl, List, [], ◌∷◌, Option, some, none, Text, All,
}
use mit_6172_fa15_project.Str.{codes, text_eq, decimal, words, find?, replace, count}
use mit_6172_fa15_project.Regex.Find.{Hit, search, find_at, search_from, group_of}
use mit_6172_fa15_project.Regex.{cursor_at, run, rounds}
use mit_6172_fa15_project.Lint.{Event, suppress, error, initial_state, default_filters, Linter}
use mit_6172_fa15_project.Lint.Counts.{print_error_counts, color}
use mit_6172_fa15_project.Lint.Nolint.{re_suppression, parse_nolint_suppressions}
use mit_6172_fa15_project.Lint.Transcript.{transcript}
use mit_6172_fa15_project.Cleanse.{CleansedLines}
use mit_6172_fa15_project.FunctionSize.{
  check_for_function_lengths, starting_func, re_function_end, re_blank,
}
use mit_6172_fa15_project.LineChecks.{
  check_for_multiline_comments_and_strings, check_calls, threading_list, is_unsafe_call,
  re_invalid_increment, check_invalid_increment, re_explicit_makepair,
  check_make_pair_uses_deduction,
}
use mit_6172_fa15_project.Classes.{track_classes}
use mit_6172_fa15_project.Classes.Constructs.{check_for_non_standard_constructs}
use mit_6172_fa15_project.Classes.Patterns.{
  re_quad, re_positional, re_undefined_escape, re_storage_class, re_endif_text, re_inner_forward,
  re_min_max, re_string_member, re_class_decl,
}
use mit_6172_fa15_project.Lint.Checked.{pass, and_then}
use mit_6172_fa15_project.Process.{Rules, initial_file_state, process_line, line_checks}
use mit_6172_fa15_project.Process.Files.{process_file, warning_style}
use mit_6172_fa15_project.Process.Main.{exited, exit_main, process_files, main}
use mit_6172_fa15_project.Process.Silenced.{IsAtLine, process_line-silenced}

-- The rule on style reports each line.
abbrev strict : Rules
strict = record {
  check_style = λ filename clean line extension s.
      pass (error line (codes "whitespace/braces") 5 (codes "bad") ∷ []) tt;
  check_language = λ filename clean line extension s. pass [] s;
  full_name = λ filename. filename;
  open_file = λ filename. none;
}

abbrev linter : Linter
linter = record {
  state = initial_state;
  suppressions = (none, 1 ∷ []) ∷ [];
  stderr = codes "before" ∷ [];
}

abbrev messages : List Event
messages =
    error 3 (codes "whitespace/braces") 4 (codes "a")
    ∷ suppress none 4
    ∷ error 4 (codes "whitespace/braces") 4 (codes "b")
    ∷ []

abbrev read : Text → Option Text
read filename = if text_eq filename (codes "a.c") then some (codes "int a;\n") else none

abbrev files : List Text
files = codes "a.c" ∷ codes "b.c" ∷ codes "a.c" ∷ []

missing_test :
    main strict (codes "\n") (λ f. none) (codes "b.c" ∷ []) linter
    ≡ exited 0 (record linter {
      stderr =
          codes "before"
          ∷ codes "\u{1b}[93mSkipping input 'b.c': Can't open for reading\n\u{1b}[0m"
          ∷ codes "\u{1b}[94m\u{1b}[1mTotal errors found: 0\n\u{1b}[0m"
          ∷ [];
    })
unfolding codes main process_files process_file exit_main print_error_counts color decimal
    warning_style
missing_test = refl

abbrev nolint_line : Text
nolint_line = codes "x;  // NOLINT"

abbrev nolint_lines : CleansedLines
nolint_lines = record {
  elided = codes "x;" ∷ [];
  lines = codes "x;" ∷ [];
  raw_lines = nolint_line ∷ [];
  num_lines = 1;
}

abbrev nolint_hit : Hit
nolint_hit = record {
  start = cursor_at (codes " //  ;x") (codes "NOLINT");
  finish = record { before = codes "TNILON //  ;x"; rest = []; groups = [] };
}

nolint_test : search re_suppression nolint_line ≡ some nolint_hit
unfolding codes search_from find_at run re_suppression flat_map
nolint_test = refl

nolint_group_test : group_of nolint_hit 1 ≡ none
unfolding codes group_of
nolint_group_test = refl

local_test :
    All
      (IsAtLine 0)
      (process_line strict 1 (codes "a.c") (codes "c") nolint_lines 0 initial_file_state).0
unfolding codes process_line line_checks parse_nolint_suppressions and_then search_from find_at run
    re_suppression flat_map group_of check_for_function_lengths starting_func re_function_end
    re_blank rounds keep text_eq words check_for_multiline_comments_and_strings check_calls
    threading_list is_unsafe_call re_invalid_increment check_invalid_increment re_explicit_makepair
    check_make_pair_uses_deduction find? replace count check_for_non_standard_constructs re_quad
    re_positional re_undefined_escape re_storage_class re_endif_text re_inner_forward re_min_max
    elem re_string_member track_classes re_class_decl
local_test = (tt, (refl, tt))

process_line-silenced_example :
    transcript 1 default_filters []
      (process_line strict 1 (codes "a.c") (codes "c") nolint_lines 0 initial_file_state).0
    ≡ []
process_line-silenced_example =
    process_line-silenced strict 1 (codes "a.c") (codes "c") nolint_lines 0 initial_file_state
      nolint_line nolint_hit default_filters [] refl nolint_test nolint_group_test local_test
