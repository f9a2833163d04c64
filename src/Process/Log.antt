-- ===== src/Process/Log.antt =====
-- An account of a run over files that keeps no state: what each file puts on stderr depends on the
-- file and the settings alone.
pub mod Refined
use mit_6172_fa15_project.Base.{
  ℕ, List, [], ◌∷◌, ◌++◌, Option, none, some, Text, if◌then◌else◌, map,
}
use mit_6172_fa15_project.Lint.{
  Report, Event, Suppressions, OutputFormat, Linter, reset_error_counts,
}
use mit_6172_fa15_project.Lint.Counts.{increment_all, color, print_error_counts}
use mit_6172_fa15_project.Lint.Transcript.{transcript, rendered}
use mit_6172_fa15_project.Lint.Checked.{Checked}
use mit_6172_fa15_project.Process.{Rules}
use mit_6172_fa15_project.Process.Files.{
  is_ignored, skipping, ignoring, done, warning_style, file_events,
}
use mit_6172_fa15_project.Process.Main.{Exit, exited, crashed}

-- What is written to stderr: a message on a file, or another text in its color.
pub data Line : Type 0 where
  message : Text → Report → Line
  remark : Text → Text → Line

abbrev pub render : OutputFormat → Line → Text
render f (message filename r) = rendered f filename r
render f (remark text style) = color text style

-- The categories of the messages.
abbrev pub categories : List Line → List Text
categories [] = []
categories (message filename r ∷ lines) = r.category ∷ categories lines
categories (remark text style ∷ lines) = categories lines

-- The linter behind lines that were written, with its suppressions as given.
abbrev pub written : List Line → Suppressions → Linter → Linter
written lines σ l = record l {
  state = increment_all (categories lines) l.state;
  suppressions = σ;
  stderr = l.stderr ++ map (render l.state.output_format) lines;
}

-- Lines, and whether the code came to its end.
abbrev pub Log : Type 0
Log = List Line × Option {0} Unit

abbrev pub closing : Text → Option {0} Unit → List Line
closing filename none = []
closing filename (some u) = remark (done filename) [] ∷ []

module _ (rules : Rules) (linesep : Text) (verbosity : ℕ) (filters : List Text) where
  -- The messages of the file that are printed, none being suppressed at first.
  abbrev pub log_events : Text → Checked Unit → Log
  log_events filename (es, o) =
      (map (message filename) (transcript verbosity filters [] es) ++ closing filename o, o)

  abbrev pub log_content : Text → Option Text → Log
  log_content filename none = (remark (skipping filename) warning_style ∷ [], some tt)
  log_content filename (some content) =
      if is_ignored filename
      then (remark (ignoring filename) [] ∷ remark (done filename) [] ∷ [], some tt)
      else log_events filename (file_events rules linesep verbosity filename content)

  module _ (read : Text → Option Text) where
    abbrev pub log_after : Log → Log → Log
    log_after (lines, none) rest = (lines, none)
    log_after (lines, some u) rest = (lines ++ rest.0, rest.1)

    unfoldable pub log_files : List Text → Log
    log_files [] = ([], some tt)
    log_files (filename ∷ filenames) =
        log_after (log_content filename (read filename)) (log_files filenames)

abbrev pub status_of : List Text → ℕ
status_of [] = 0
status_of (c ∷ cs) = 1

-- How the program ends behind a log: with status 1 if there is a message, else 0, and with the
-- statistic of the messages; or with the exception that was raised.
abbrev pub conclude : Log → Suppressions → Linter → Exit
conclude (lines, none) σ l = crashed (written lines σ l)
conclude (lines, some u) σ l =
    let l' = written lines σ l in
    exited (status_of (categories lines))
      (record l' { stderr = l'.stderr ++ print_error_counts l'.state })
