-- ===== src/Process/Outside.antt =====
-- The rules of CheckStyle and CheckLanguage as ProcessLine calls them, and what they ask of the
-- system: the only part of a run that is not in clint.py.
use mit_6172_fa15_project.Base.{List, Option, Text}
use mit_6172_fa15_project.FileInfo.Repository.{full_name}
use mit_6172_fa15_project.Style.{System, check_style}
use mit_6172_fa15_project.Language.{check_language}
use mit_6172_fa15_project.Process.{Rules}

-- The rules of the program; `open_file` gives the lines of a file, if it opens.
abbrev pub lint_rules : System → (Text → Option (List Text)) → Rules
lint_rules system open_file = record {
  check_style = check_style system;
  check_language = check_language system.abspath system.exists;
  full_name = full_name system.abspath system.exists;
  open_file = open_file;
}
