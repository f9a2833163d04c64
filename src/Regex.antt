-- ===== src/Regex.antt =====
-- The regular expressions of the Python module `re`, as far as clint.py uses them, and, in `Cache`,
-- its two calls of them, `Match` and `Search`. A pattern is matched by backtracking: `run` lists,
-- best first, every way in which a pattern matches at a cursor, and a match is the first of them.

pub mod Matches
pub mod Find
pub mod Notation
pub mod Sub
pub mod Cache
use mit_6172_fa15_project.Base.{
  ℕ, zero, suc, Bool, List, [], ◌∷◌, ◌++◌, length, take, ◌-◌, ltb, if◌then◌else◌, keep, flat_map,
  map, Text,
}

-- `look` is a test that reads the text on both sides and consumes nothing: `^`, `$`, `\b`, `(?=…)`.
pub data Regex : Type 0 where
  eps : Regex
  char : (ℕ → Bool) → Regex
  seq alt : Regex → Regex → Regex
  star lazy : Regex → Regex
  group : ℕ → Regex → Regex
  look : (Text → Text → Bool) → Regex

-- A place in a text: what stands before it (nearest character first), what stands after it, and
-- the groups that are set, the latest first.
pub record Cursor : Type 0 where
  pub before : Text
  pub rest : Text
  pub groups : List (ℕ × Text)

abbrev pub cursor_at : Text → Text → Cursor
cursor_at before rest = record { before = before; rest = rest; groups = [] }

abbrev pub step_over : (ℕ → Bool) → Cursor → Text → List Cursor
step_over p c [] = []
step_over p c (x ∷ xs) = if p x then record c { before = x ∷ c.before; rest = xs } ∷ [] else []

-- The text between two cursors, the second of which stands further on.
abbrev pub span : Cursor → Cursor → Text
span c d = take (length c.rest - length d.rest) c.rest

abbrev pub close_group : ℕ → Cursor → Cursor → Cursor
close_group i c d = record d { groups = (i, span c d) ∷ d.groups }

abbrev pub further : Cursor → Cursor → Bool
further c d = ltb (length d.rest) (length c.rest)

-- A round of a repetition that consumes nothing is not taken, so the characters left bound the rounds.
unfoldable pub rounds : ℕ → (Cursor → List Cursor) → Cursor → List Cursor
rounds zero step c = c ∷ []
rounds (suc n) step c = flat_map (rounds n step) (keep (further c) (step c)) ++ c ∷ []

unfoldable pub lazy_rounds : ℕ → (Cursor → List Cursor) → Cursor → List Cursor
lazy_rounds zero step c = c ∷ []
lazy_rounds (suc n) step c = c ∷ flat_map (lazy_rounds n step) (keep (further c) (step c))

unfoldable pub run : Regex → Cursor → List Cursor
run eps c = c ∷ []
run (char p) c = step_over p c c.rest
run (seq a b) c = flat_map (run b) (run a c)
run (alt a b) c = run a c ++ run b c
run (star a) c = rounds (length c.rest) (run a) c
run (lazy a) c = lazy_rounds (length c.rest) (run a) c
run (group i a) c = map (close_group i c) (run a c)
run (look p) c = if p c.before c.rest then c ∷ [] else []
