-- ===== src/Tests/Options.antt =====
-- Command lines at concrete inputs.
use mit_6172_fa15_project.Base.{keep, ℕ, ◌-◌, List, [], ◌∷◌, Option, none, some, Text, ◌≡◌, refl}
use mit_6172_fa15_project.Str.{codes, split, strip_bytes, text_eq}
use mit_6172_fa15_project.Lint.{initial_state, CppLintState, vs7, detailed, default_filters}
use mit_6172_fa15_project.Lint.Filters.{set_filters, clean_filters, is_signed}
use mit_6172_fa15_project.CommandLine.{
  Opt, output, verbose, filter, counting, parsed, proceeds, stops, categories, usage, read_output,
  read_counting, read_option, read_options, apply_settings, parse_arguments,
}
use mit_6172_fa15_project.CommandLine.Accepted.{Configured, parse_arguments-Configured}

-- `int` on one digit.
abbrev digit : Text → Option ℕ
digit [] = none
digit (c ∷ []) = some (c - b'0')
digit (c ∷ d ∷ s) = none

abbrev opts : List (Opt × Text)
opts =
    (verbose, codes "5")
    ∷ (filter, codes "-whitespace")
    ∷ (output, codes "vs7")
    ∷ (filter, codes "+build, -legal")
    ∷ (counting, codes "detailed")
    ∷ []

abbrev files : List Text
files = codes "a.c" ∷ []

abbrev configured : CppLintState
configured = record {
  verbose_level = 5;
  error_count = 0;
  filters = codes "-build/include_alpha" ∷ codes "+build" ∷ codes "-legal" ∷ [];
  counting = detailed;
  errors_by_category = [];
  output_format = vs7;
}

proceeds_test : parse_arguments digit (parsed opts files) initial_state ≡ proceeds files configured
unfolding codes parse_arguments read_options read_option read_output read_counting apply_settings
    set_filters clean_filters is_signed default_filters split strip_bytes text_eq keep
proceeds_test = refl

categories_test :
    parse_arguments digit (parsed ((filter, []) ∷ []) []) initial_state ≡ stops categories
unfolding parse_arguments read_options read_option
categories_test = refl

no_files_test :
    parse_arguments digit (parsed opts []) initial_state
    ≡ stops (usage (some (codes "No files were specified.")))
unfolding codes parse_arguments read_options read_option read_output read_counting text_eq
no_files_test = refl

parse_arguments-Configured_example :
    (files ≡ files) × Configured digit opts files initial_state configured
parse_arguments-Configured_example =
    parse_arguments-Configured digit opts files files initial_state configured proceeds_test
