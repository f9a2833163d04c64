-- ===== src/HeaderGuard/Variable.antt =====
-- `GetHeaderGuardCPPVariable` (clint.py:1046).
pub mod Letters
use mathlib.Core.Option
use mit_6172_fa15_project.Base.{ℕ, ◌-◌, Bool, ◌||◌, ◌++◌, Option, Text, if◌then◌else◌, map, elem}
use mit_6172_fa15_project.Str.{codes}
use mit_6172_fa15_project.Regex.{Regex, char}
use mit_6172_fa15_project.Regex.Sub.{sub}
use mit_6172_fa15_project.Regex.Notation.{lit, eol, within, is_blank, ◌▸◌}
use mit_6172_fa15_project.FileInfo.Repository.{repository_name}

-- _flymake\.h$
unfoldable pub re_flymake : Regex
unfolding lit eol
re_flymake = lit "_flymake.h" ▸ eol

-- [-./\s]
unfoldable pub re_separator : Regex
unfolding is_blank codes
re_separator = char (λ c. elem c (codes "-./") || is_blank c)

unfoldable pub upper_char : ℕ → ℕ
upper_char c = if within b'a' b'z' c then c - 32 else c

-- s.upper(), for a string of bytes
unfoldable pub upper : Text → Text
unfolding upper_char
upper s = map upper_char s

-- The variable for a file with the name `name` in its repository.
unfoldable pub guard_name : Text → Text
unfolding codes upper
guard_name name = upper (sub re_separator (codes "_") name) ++ codes "_"

-- GetHeaderGuardCPPVariable; `none` where RepositoryName does not end
unfoldable pub header_guard_variable : (Text → Text) → (Text → Bool) → Text → Option Text
unfolding codes guard_name
header_guard_variable abspath exists filename =
    Option.map guard_name (repository_name abspath exists (sub re_flymake (codes ".h") filename))
