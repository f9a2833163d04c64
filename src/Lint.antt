-- ===== src/Lint.antt =====
-- The state behind clint.py's reports: `_CppLintState`, the NOLINT suppressions, and what is
-- written to stderr. A check is a function into the events that it raises, in order; an event is a
-- call of the callback `error` or an entry of `_error_suppressions`.
pub mod Nolint
pub mod Filters
pub mod Counts
pub mod Emit
pub mod Checked
pub mod Transcript
use mit_6172_fa15_project.Base.{ℕ, List, [], ◌∷◌, Option, Text}
use mit_6172_fa15_project.Str.{codes}

-- error(filename, linenum, category, confidence, message); the filename is the same throughout
pub record Report : Type 0 where
  pub linenum : ℕ
  pub category : Text
  pub confidence : ℕ
  pub message : Text

pub data Event : Type 0 where
  report : Report → Event
  -- _error_suppressions.setdefault(category, set()).add(linenum)
  suppress : Option Text → ℕ → Event

abbrev pub error : ℕ → Text → ℕ → Text → Event
error linenum category confidence message =
    report (record {
      linenum = linenum;
      category = category;
      confidence = confidence;
      message = message;
    })

-- `unset` is the empty string, which `ParseArguments` sets where no option is given.
pub data Counting : Type 0 where
  total toplevel detailed unset : Counting

pub data OutputFormat : Type 0 where
  emacs vs7 : OutputFormat

pub record CppLintState : Type 0 where
  pub verbose_level : ℕ
  pub error_count : ℕ
  pub filters : List Text
  pub counting : Counting
  pub errors_by_category : List (Text × ℕ)
  pub output_format : OutputFormat

unfoldable pub default_filters : List Text
unfolding codes
default_filters = codes "-build/include_alpha" ∷ []

abbrev pub initial_state : CppLintState
initial_state = record {
  verbose_level = 1;
  error_count = 0;
  filters = default_filters;
  counting = total;
  errors_by_category = [];
  output_format = emacs;
}

-- SetOutputFormat
abbrev pub set_output_format : OutputFormat → CppLintState → CppLintState
set_output_format f s = record s { output_format = f }

-- SetVerboseLevel: the new state and the previous setting
abbrev pub set_verbose_level : ℕ → CppLintState → CppLintState × ℕ
set_verbose_level level s = (record s { verbose_level = level }, s.verbose_level)

-- SetCountingStyle
abbrev pub set_counting_style : Counting → CppLintState → CppLintState
set_counting_style c s = record s { counting = c }

-- ResetErrorCounts
abbrev pub reset_error_counts : CppLintState → CppLintState
reset_error_counts s = record s { error_count = 0; errors_by_category = [] }

-- A dict from a category, or None, to a set of line numbers.
abbrev pub Suppressions : Type 0
Suppressions = List (Option Text × List ℕ)

pub record Linter : Type 0 where
  pub state : CppLintState
  pub suppressions : Suppressions
  pub stderr : List Text
