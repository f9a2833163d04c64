-- ===== src/Process/Log/Refined.antt =====
-- The program writes what its log says.
use mit_6172_fa15_project.Base.{List, none, some, ◌≡◌}
use mit_6172_fa15_project.Lint.{Suppressions, CppLintState, Linter}
use mit_6172_fa15_project.Lint.Checked.{Checked}
use mit_6172_fa15_project.Process.Files.{Ended, returned, raised}
use mit_6172_fa15_project.Process.Main.{Exit, crashed, exit_main}
use mit_6172_fa15_project.Process.Log.{written, Log}

-- The settings that printing keeps.
abbrev SameSettings : CppLintState → CppLintState → Type 0
SameSettings s t =
    (s.verbose_level ≡ t.verbose_level)
    × (s.filters ≡ t.filters)
    × (s.output_format ≡ t.output_format)

-- How the lint of a file ends behind its log.
abbrev ended_with : Log → Suppressions → Linter → Ended
ended_with (lines, none) σ l = raised (written lines σ l)
ended_with (lines, some u) σ l = returned (written lines σ l)

-- How the run over the files ends behind its log.
abbrev ends : Log → Suppressions → Linter → Exit
ends (lines, none) σ l = crashed (written lines σ l)
ends (lines, some u) σ l = exit_main (written lines σ l)
