-- ===== src/CommandLine.antt =====
-- `ParseArguments` (clint.py:3322) and what it calls to leave the program. What getopt makes of the
-- arguments and what `int` reads are parameters; a negative verbosity is outside of the model.
pub mod Accepted
use mit_6172_fa15_project.Base.{
  ℕ, Bool, true, false, List, [], ◌∷◌, ◌++◌, Option, none, some, Text, if◌then◌else◌, map, ◌||◌,
}
use mit_6172_fa15_project.Str.{codes, text_eq}
use mit_6172_fa15_project.Lint.{
  CppLintState, OutputFormat, emacs, vs7, Counting, total, toplevel, detailed, unset,
  set_output_format, set_verbose_level, set_counting_style,
}
use mit_6172_fa15_project.Lint.Filters.{set_filters}
use mit_6172_fa15_project.Lint.Nolint.{error_categories}

-- How the program ends before it reads a file: by `PrintUsage` with its message, by
-- `PrintCategories`, or by a ValueError.
pub data Halt : Type 0 where
  usage : Option Text → Halt
  categories value_error : Halt

-- What `PrintUsage` (clint.py:3300) and `PrintCategories` (clint.py:3313) write and exit with; the
-- status of an exit with a text is 1, and Python writes the text.
pub record Exit : Type 0 where
  pub written : List Text
  pub status : ℕ

abbrev pub print_usage : Text → Option Text → Exit
print_usage usage_text none = record { written = usage_text ∷ []; status = 1 }
print_usage usage_text (some message) = record {
  written = usage_text ∷ (codes "\nFATAL ERROR: " ++ message ++ codes "\n") ∷ [];
  status = 1;
}

unfoldable pub joined : List Text → Text
joined [] = []
joined (t ∷ ts) = t ++ joined ts

abbrev pub print_categories : Exit
print_categories = record {
  written = joined (map (λ cat. codes "  " ++ cat ++ codes "\n") error_categories) ∷ [];
  status = 0;
}

-- The local variables of the loop.
pub record Settings : Type 0 where
  pub verbosity : ℕ
  pub output_format : OutputFormat
  pub filters : Text
  pub counting_style : Counting

pub data Loop : Type 0 where
  goes_on : Settings → Loop
  halts : Halt → Loop

unfoldable pub read_output : Text → Option OutputFormat
unfolding codes
read_output val =
    if text_eq val (codes "emacs")
    then some emacs
    else if text_eq val (codes "vs7")
    then some vs7
    else none

unfoldable pub read_counting : Text → Option Counting
unfolding codes
read_counting val =
    if text_eq val (codes "total")
    then some total
    else if text_eq val (codes "toplevel")
    then some toplevel
    else if text_eq val (codes "detailed")
    then some detailed
    else none

abbrev pub with_output : Option OutputFormat → Settings → Loop
with_output none v =
    halts (usage (some (codes "The only allowed output formats are emacs and vs7.")))
with_output (some f) v = goes_on (record v { output_format = f })

abbrev pub with_counting : Option Counting → Settings → Loop
with_counting none v =
    halts (usage (some (codes "Valid counting options are total, toplevel, and detailed")))
with_counting (some c) v = goes_on (record v { counting_style = c })

abbrev pub with_verbosity : Option ℕ → Settings → Loop
with_verbosity none v = halts value_error
with_verbosity (some level) v = goes_on (record v { verbosity = level })

abbrev pub with_filters : Text → Settings → Loop
with_filters [] v = halts categories
with_filters (c ∷ val) v = goes_on (record v { filters = c ∷ val })

-- The five options.
pub data Opt : Type 0 where
  help output verbose filter counting : Opt

-- What getopt gives for the long options 'help', 'output=', 'verbose=', 'counting=' and 'filter=':
-- each option found, in order, with its value, and the arguments behind; `invalid` is GetoptError.
pub data Getopt : Type 0 where
  parsed : List (Opt × Text) → List Text → Getopt
  invalid : Getopt

pub data Start : Type 0 where
  proceeds : List Text → CppLintState → Start
  stops : Halt → Start

module _ (int : Text → Option ℕ) where
  -- One round of the loop.
  unfoldable pub read_option : Opt → Text → Settings → Loop
  read_option help val v = halts (usage none)
  read_option output val v = with_output (read_output val) v
  read_option verbose val v = with_verbosity (int val) v
  read_option filter val v = with_filters val v
  read_option counting val v = with_counting (read_counting val) v

  unfoldable pub read_options : List (Opt × Text) → Settings → Loop
  read_options [] v = goes_on v
  read_options ((opt, val) ∷ opts) v = elim (read_option opt val v) [
    | goes_on v' ↦ read_options opts v'
    | halts h ↦ halts h
  ]

  -- Behind `_SetFilters`, which may raise ValueError.
  abbrev pub counted : Counting → List Text → CppLintState × Bool → Start
  counted c filenames (s, true) = proceeds filenames (set_counting_style c s)
  counted c filenames (s, false) = stops value_error

  -- The four calls behind the loop.
  unfoldable pub apply_settings : Settings → List Text → CppLintState → Start
  apply_settings v filenames s =
      let s' = (set_verbose_level v.verbosity (set_output_format v.output_format s)).0 in
      counted v.counting_style filenames (set_filters v.filters s')

  abbrev pub with_files : Loop → List Text → CppLintState → Start
  with_files (halts h) filenames s = stops h
  with_files (goes_on v) [] s = stops (usage (some (codes "No files were specified.")))
  with_files (goes_on v) (f ∷ filenames) s = apply_settings v (f ∷ filenames) s

  abbrev pub initial_settings : CppLintState → Settings
  initial_settings s = record {
    verbosity = s.verbose_level;
    output_format = s.output_format;
    filters = [];
    counting_style = unset;
  }

  -- ParseArguments
  unfoldable pub parse_arguments : Getopt → CppLintState → Start
  unfolding read_options
  parse_arguments invalid s = stops (usage (some (codes "Invalid arguments.")))
  parse_arguments (parsed opts filenames) s =
      with_files (read_options opts (initial_settings s)) filenames s
