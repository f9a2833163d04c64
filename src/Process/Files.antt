-- ===== src/Process/Files.antt =====
-- `ProcessFile` (clint.py:3231): a file is read, and the events of its checks go to `Error`. What
-- the file holds, decoded, is a parameter: `none` is an IOError. So is `os.linesep`.
use mit_6172_fa15_project.Base.{
  ℕ, Bool, not, ◌&&◌, List, [], ◌∷◌, ◌++◌, Option, none, some, Text, if◌then◌else◌, ◌==◌, map, any,
}
use mit_6172_fa15_project.Str.{codes, text_eq, split, ends_with}
use mit_6172_fa15_project.Lint.{Event, error, Linter, set_verbose_level}
use mit_6172_fa15_project.Lint.Nolint.{reset_nolint_suppressions}
use mit_6172_fa15_project.Lint.Counts.{color, escape_code}
use mit_6172_fa15_project.Lint.Emit.{handle_all}
use mit_6172_fa15_project.Lint.Checked.{Checked, and_then, pass}
use mit_6172_fa15_project.Process.{Rules, process_file_data}

-- line.rstrip('\r')
unfoldable pub rstrip_returns : Text → Text
rstrip_returns [] = []
rstrip_returns (c ∷ s) = elim (rstrip_returns s) [
  | [] ↦ if c == b'\r' then [] else c ∷ []
  | d ∷ t ↦ c ∷ d ∷ t
]

-- if line.endswith('\r'): line = line.rstrip('\r'); what is left is the same without the test
abbrev has_return : Text → Bool
has_return line = ends_with line (b'\r' ∷ [])

-- filename[filename.rfind('.') + 1:], the whole name where there is no dot
unfoldable pub file_extension : Text → Text
unfolding split
file_extension filename = last_of filename (split b'.' filename)
  where
    last_of : Text → List Text → Text
    last_of d [] = d
    last_of d (x ∷ xs) = last_of x xs

-- What is not linted: an extension other than c, h and cpp, but not stdin.
unfoldable pub is_ignored : Text → Bool
unfolding file_extension codes text_eq
is_ignored filename =
    let extension = file_extension filename in
    not (text_eq filename (codes "-"))
    && not (text_eq extension (codes "c"))
    && not (text_eq extension (codes "h"))
    && not (text_eq extension (codes "cpp"))

abbrev pub note : Text → Text → Linter → Linter
note text style l = record l { stderr = l.stderr ++ color text style ∷ [] }

-- bcolors.WARNING
unfoldable pub warning_style : Text
unfolding escape_code
warning_style = escape_code (codes "93")

abbrev pub skipping : Text → Text
skipping filename = codes "Skipping input '" ++ filename ++ codes "': Can't open for reading\n"

abbrev pub ignoring : Text → Text
ignoring filename = codes "Ignoring " ++ filename ++ codes "; not a .c or .h file\n"

abbrev pub done : Text → Text
done filename = codes "Done processing " ++ filename ++ codes "\n"

-- How the lint of a file ends: `asserted` is the failed assertion of `Error` on a filter.
pub data Ended : Type 0 where
  returned raised : Linter → Ended
  asserted : Ended

-- The events of code that may raise an exception, handed to `Error`.
abbrev pub ended_by : Option {0} Unit → Option Linter → Ended
ended_by o none = asserted
ended_by none (some l) = raised l
ended_by (some _) (some l) = returned l

unfoldable pub run_checked : Text → Checked Unit → Linter → Ended
run_checked filename (es, o) l = ended_by o (handle_all filename es l)

abbrev pub noted : Text → Ended → Ended
noted text (returned l) = returned (note text [] l)
noted text (raised l) = raised l
noted text asserted = asserted

module _ (rules : Rules) (linesep : Text) where
  -- The message on carriage returns, behind the checks of the file.
  abbrev return_events : Bool → List Event
  return_events found =
      if found && not (text_eq linesep (codes "\r\n"))
      then error 0 (codes "whitespace/newline") 1
          (codes "One or more unexpected \\r (^M) found;better to use only a \\n")
        ∷ []
      else []

  -- Everything that the lint of a file's content reports.
  unfoldable pub file_events : ℕ → Text → Text → Checked Unit
  unfolding and_then rstrip_returns
  file_events verbosity filename content =
      let lines = split b'\n' content in
      and_then
        (process_file_data rules verbosity filename (file_extension filename)
          (map rstrip_returns lines))
        (λ _. pass (return_events (any has_return lines)) tt)

  abbrev pub lint_content : Text → Text → Linter → Ended
  lint_content filename content l =
      if is_ignored filename
      then returned (note (done filename) [] (note (ignoring filename) [] l))
      else noted (done filename) (
          run_checked filename (file_events l.state.verbose_level filename content)
            (record l { suppressions = reset_nolint_suppressions l.suppressions }))

  abbrev pub on_content : Text → Option Text → Linter → Ended
  on_content filename none l = returned (note (skipping filename) warning_style l)
  on_content filename (some content) l = lint_content filename content l

  -- ProcessFile
  unfoldable pub process_file : (Text → Option Text) → Text → ℕ → Linter → Ended
  unfolding run_checked
  process_file read filename vlevel l =
      on_content filename (read filename)
        (record l { state = (set_verbose_level vlevel l.state).0 })
