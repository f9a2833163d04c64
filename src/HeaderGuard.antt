-- ===== src/HeaderGuard.antt =====
-- `CheckForHeaderGuard` (clint.py:1066). The local `cppvar` is assigned only behind the first test,
-- so that the message of that test raises UnboundLocalError.
pub mod Guarded
pub mod Variable
use mit_6172_fa15_project.Base.{
  ℕ, suc, ◌+◌, Bool, true, false, not, List, [], ◌∷◌, ◌++◌, Option, none, some, Text, if◌then◌else◌,
  get_elem?, is_some,
}
use mit_6172_fa15_project.Str.{codes, words, starts_with, text_eq}
use mit_6172_fa15_project.Lint.{Event, error}
use mit_6172_fa15_project.Lint.Nolint.{parse_nolint_suppressions}

pub data Outcome : Type 0 where
  reports : List Event → Outcome
  unbound_local_error : Outcome

-- The variables of the loop; `none` is None.
pub record Found : Type 0 where
  pub ifndef : Option Text
  pub ifndef_linenum : ℕ
  pub define : Option Text
  pub endif : Option Text
  pub endif_linenum : ℕ

abbrev pub nothing_found : Found
nothing_found = record {
  ifndef = none;
  ifndef_linenum = 0;
  define = none;
  endif = none;
  endif_linenum = 0;
}

-- linesplit[1] of a line with at least two words, the first of which is the directive
abbrev argument_in : Text → List Text → Option Text
argument_in directive [] = none
argument_in directive (w ∷ []) = none
argument_in directive (w ∷ v ∷ ws) = if text_eq w directive then some v else none

unfoldable pub argument : Text → Text → Option Text
argument directive line = argument_in directive (words line)

-- if not x: x = y
abbrev keep_first : Option Text → Option Text → Option Text
keep_first none new = new
keep_first (some old) new = some old

abbrev first_linenum : Option Text → Option Text → ℕ → ℕ → ℕ
first_linenum none (some new) old linenum = linenum
first_linenum _ _ old linenum = old

abbrev read_endif : Bool → Text → ℕ → Found → Found
read_endif true line linenum f = record f { endif = some line; endif_linenum = linenum }
read_endif false line linenum f = f

-- One line of the loop.
unfoldable pub read_line : Text → ℕ → Found → Found
unfolding codes
read_line line linenum f = read_endif (starts_with line (codes "#endif")) line linenum (record f {
  ifndef = keep_first f.ifndef (argument (codes "#ifndef") line);
  ifndef_linenum =
      first_linenum f.ifndef (argument (codes "#ifndef") line) f.ifndef_linenum linenum;
  define = keep_first f.define (argument (codes "#define") line);
})

unfoldable pub read_lines : List Text → ℕ → Found → Found
read_lines [] linenum f = f
read_lines (line ∷ lines) linenum f = read_lines lines (linenum + 1) (read_line line linenum f)

abbrev guard_error : ℕ → ℕ → Text → Event
guard_error linenum level message = error linenum (codes "build/header_guard") level message

abbrev line_at : List Text → ℕ → Text
line_at lines i = elim (get_elem? lines i) [ none ↦ [] | some l ↦ l ]

abbrev is_text : Option Text → Text → Bool
is_text none t = false
is_text (some s) t = text_eq s t

-- The test of the last #endif line; `cppvar` is the name in use.
unfoldable pub check_endif : List Text → Found → Text → List Event
check_endif lines f cppvar =
    if is_text f.endif (codes "#endif  // " ++ cppvar)
    then []
    else parse_nolint_suppressions (line_at lines f.endif_linenum) f.endif_linenum
      ++ guard_error f.endif_linenum
          (if is_text f.endif (codes "#endif  // " ++ (cppvar ++ codes "_")) then 0 else 5)
          (codes "#endif line should be \"#endif  // " ++ cppvar ++ codes "\"")
        ∷ []

-- The tests with both names found. `ifndef != cppvar` is never true behind `cppvar = ifndef`.
unfoldable pub check_names : List Text → Found → Text → Text → List Event
unfolding check_endif
check_names lines f ifndef define =
    let cppvar = ifndef in
    (if text_eq ifndef cppvar
      then []
      else parse_nolint_suppressions (line_at lines f.ifndef_linenum) f.ifndef_linenum)
    ++ (if text_eq define ifndef
        then check_endif lines f cppvar
        else guard_error 0 5
            (codes "#ifndef and #define don't match, suggested CPP variable is: " ++ cppvar)
          ∷ [])

abbrev check_found : List Text → Found → Option Text → Option Text → Outcome
check_found lines f none define = unbound_local_error
check_found lines f (some ifndef) none = reports (
    guard_error 0 5 (codes "No #define header guard found, suggested CPP variable is: " ++ ifndef)
    ∷ [])
check_found lines f (some ifndef) (some define) = reports (check_names lines f ifndef define)

-- CheckForHeaderGuard
unfoldable pub check_for_header_guard : List Text → Outcome
unfolding read_lines read_line check_names argument
check_for_header_guard lines =
    let f = read_lines lines 0 nothing_found in check_found lines f f.ifndef f.define
