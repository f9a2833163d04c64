-- ===== src/Process.antt =====
-- `ProcessLine`, `ProcessFileData` (clint.py:3150-3229): the checks of a file in their order. The
-- rules of CheckStyle and CheckLanguage are an interface: they may report, change the state of the
-- includes, or raise an exception.
pub mod Files
pub mod Main
pub mod Log
pub mod Silenced
pub mod Outside
use mit_6172_fa15_project.Base.{
  ℕ, zero, suc, ◌+◌, List, [], ◌∷◌, ◌++◌, Option, none, some, Text, if◌then◌else◌, get_elem?,
}
use mit_6172_fa15_project.Str.{codes, text_eq}
use mit_6172_fa15_project.Lint.{Event}
use mit_6172_fa15_project.Lint.Checked.{Checked, pass, and_then, events_then, with_state}
use mit_6172_fa15_project.Lint.Nolint.{parse_nolint_suppressions}
use mit_6172_fa15_project.Includes.Order.{IncludeState, initial_include_state}
use mit_6172_fa15_project.Includes.Used.{check_for_include_what_you_use}
use mit_6172_fa15_project.FunctionSize.{
  FunctionState, initial_function_state, check_for_function_lengths,
}
use mit_6172_fa15_project.HeaderGuard.{
  Outcome, reports, unbound_local_error, check_for_header_guard,
}
use mit_6172_fa15_project.Comments.{remove_multi_line_comments}
use mit_6172_fa15_project.Cleanse.{CleansedLines, cleansed_lines}
use mit_6172_fa15_project.FileChecks.{
  check_for_copyright, check_for_unicode_replacement_characters, check_for_newline_at_eof,
}
use mit_6172_fa15_project.Classes.{ClassStack, check_finished}
use mit_6172_fa15_project.Classes.Constructs.{check_for_non_standard_constructs}
use mit_6172_fa15_project.LineChecks.{
  check_for_multiline_comments_and_strings, check_posix_threading, check_invalid_increment,
  check_make_pair_uses_deduction,
}

-- CheckStyle and CheckLanguage, which `Outside` fills in, and the file system.
pub record Rules : Type 0 where
  pub check_style : Text → CleansedLines → ℕ → Text → ClassStack → Checked Unit
  pub check_language : Text → CleansedLines → ℕ → Text → IncludeState → Checked IncludeState
  -- What CheckForIncludeWhatYouUse asks of the file system: os.path.abspath, and the lines of a file
  -- that is opened.
  pub full_name : Text → Text
  pub open_file : Text → Option (List Text)

-- The states that are made anew for each file.
pub record FileState : Type 0 where
  pub include_state : IncludeState
  pub function_state : FunctionState
  pub class_state : ClassStack

abbrev pub initial_file_state : FileState
initial_file_state = record {
  include_state = initial_include_state;
  function_state = initial_function_state;
  class_state = [];
}

module _ (rules : Rules) where
  -- The checks behind CheckForNonStandardConstructs.
  abbrev last_checks : Text → Text → ℕ → List Event
  last_checks raw elided line =
      check_posix_threading elided line
      ++ (check_invalid_increment elided line ++ check_make_pair_uses_deduction raw line)

  -- ProcessLine behind ParseNolintSuppressions, on a line's raw and elided text.
  unfoldable pub line_checks :
      ℕ → Text → Text → CleansedLines → ℕ → Text → Text → FileState → Checked FileState
  line_checks verbosity filename extension clean line raw elided s =
      and_then (with_state (check_for_function_lengths verbosity clean.lines line s.function_state))
        (λ f. events_then (check_for_multiline_comments_and_strings elided line) (
          and_then (rules.check_style filename clean line extension s.class_state) (λ _.
            and_then (rules.check_language filename clean line extension s.include_state) (λ i.
              and_then (with_state (check_for_non_standard_constructs clean line s.class_state))
                (λ c.
                  pass (last_checks raw elided line)
                    (record { include_state = i; function_state = f; class_state = c }))))))

  abbrev pub on_texts :
      ℕ
      → Text
      → Text
      → CleansedLines
      → ℕ
      → Option Text
      → Option Text
      → FileState
      → Checked FileState
  on_texts verbosity filename extension clean line (some raw) (some elided) s =
      events_then (parse_nolint_suppressions raw line)
        (line_checks verbosity filename extension clean line raw elided s)
  on_texts verbosity filename extension clean line _ _ s = ([], none)

  -- ProcessLine
  unfoldable pub process_line : ℕ → Text → Text → CleansedLines → ℕ → FileState → Checked FileState
  unfolding line_checks
  process_line verbosity filename extension clean line s =
      on_texts verbosity filename extension clean line (get_elem? clean.raw_lines line)
        (get_elem? clean.elided line) s

  -- The loop over the lines, `n` of them from `line` on.
  unfoldable pub process_lines :
      ℕ → Text → Text → CleansedLines → ℕ → ℕ → FileState → Checked FileState
  unfolding and_then process_line
  process_lines verbosity filename extension clean zero line s = pass [] s
  process_lines verbosity filename extension clean (suc n) line s =
      and_then (process_line verbosity filename extension clean line s)
        (process_lines verbosity filename extension clean n (line + 1))

  abbrev guard_checked : Outcome → Checked Unit
  guard_checked (reports es) = pass es tt
  guard_checked unbound_local_error = ([], none)

  abbrev pub with_markers : List Text → List Text
  with_markers lines =
      (codes "// marker so line numbers and indices both start at 1" ∷ lines)
      ++ codes "// marker so line numbers end in a known way" ∷ []

  -- ProcessFileData behind RemoveMultiLineComments, which has changed `lines` itself.
  unfoldable pub process_cleaned : ℕ → Text → Text → List Text → Checked Unit
  unfolding process_lines
  process_cleaned verbosity filename extension lines =
      let clean = cleansed_lines lines in
      and_then
        (process_lines verbosity filename extension clean clean.num_lines 0 initial_file_state)
        (λ s.
          let full_name = rules.full_name filename in
          pass
            (check_finished s.class_state
              ++ check_for_include_what_you_use rules.open_file filename full_name clean.elided
                  s.include_state.included
              ++ check_for_unicode_replacement_characters lines
              ++ check_for_newline_at_eof lines)
            tt)

  -- ProcessFileData behind ResetNolintSuppressions
  unfoldable pub process_file_data : ℕ → Text → Text → List Text → Checked Unit
  unfolding and_then process_cleaned codes
  process_file_data verbosity filename extension content =
      let lines = with_markers content in
      events_then (check_for_copyright lines) (
        and_then
          (if text_eq extension (codes "h")
            then guard_checked (check_for_header_guard lines)
            else pass [] tt)
          (λ _.
            events_then (remove_multi_line_comments lines).1
              (process_cleaned verbosity filename extension (remove_multi_line_comments lines).0)))
