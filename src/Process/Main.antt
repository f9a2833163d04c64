-- ===== src/Process/Main.antt =====
-- `main` (clint.py:3374): the files one by one, the error statistic and the exit status.
use mit_6172_fa15_project.Base.{ℕ, List, [], ◌∷◌, ◌++◌, Option, Text, if◌then◌else◌, ltb}
use mit_6172_fa15_project.Lint.{Linter, reset_error_counts}
use mit_6172_fa15_project.Lint.Counts.{print_error_counts}
use mit_6172_fa15_project.Process.{Rules}
use mit_6172_fa15_project.Process.Files.{returned, raised, asserted, process_file}

-- How the program ends: `exited` is `sys.exit` with a status, `crashed` an exception that nothing
-- catches.
pub data Exit : Type 0 where
  exited : ℕ → Linter → Exit
  crashed : Linter → Exit
  failed_assertion : Exit

-- sys.exit(error_count > 0), behind PrintErrorCounts
unfoldable pub exit_main : Linter → Exit
exit_main l =
    exited (if ltb 0 l.state.error_count then 1 else 0)
      (record l { stderr = l.stderr ++ print_error_counts l.state })

module _ (rules : Rules) (linesep : Text) (read : Text → Option Text) where
  -- The loop over the files.
  unfoldable pub process_files : List Text → Linter → Exit
  process_files [] l = exit_main l
  process_files (filename ∷ filenames) l =
      elim (process_file rules linesep read filename l.state.verbose_level l) [
        | returned l' ↦ process_files filenames l'
        | raised l' ↦ crashed l'
        | asserted ↦ failed_assertion
      ]

  -- main, behind ParseArguments
  unfoldable pub main : List Text → Linter → Exit
  main filenames l = process_files filenames (record l { state = reset_error_counts l.state })
