-- ===== src/Brackets.antt =====
-- `_GetTextInside` (clint.py:2476): the text between a bracket and the one that closes it.
pub mod Nesting
use mathlib.Core.Option
use mit_6172_fa15_project.Base.{
  ℕ, zero, suc, ◌-◌, Bool, true, false, List, [], ◌∷◌, Option, none, some, Text, if◌then◌else◌,
  ◌==◌, take,
}
use mit_6172_fa15_project.Regex.{Regex}
use mit_6172_fa15_project.Regex.Find.{Hit, search}

-- matching_punctuation
unfoldable pub matching_punctuation : ℕ → Option ℕ
matching_punctuation c =
    if c == b'('
    then some b')'
    else if c == b'{'
    then some b'}'
    else if c == b'['
    then some b']'
    else none

-- c in closing_punctuation
unfoldable pub is_closing : ℕ → Bool
is_closing c = if c == b')' then true else if c == b'}' then true else c == b']'

-- One round of the loop: the stack behind a character, `none` for a closing bracket that does not fit.
unfoldable pub next_stack : ℕ → ℕ → List ℕ → Option (List ℕ)
unfolding matching_punctuation is_closing
next_stack c top stack =
    if c == top then some stack else if is_closing c then none else elim (matching_punctuation c) [
      | none ↦ some (top ∷ stack)
      | some closer ↦ some (closer ∷ top ∷ stack)
    ]

-- How far the loop gets beyond its start, `none` where the function returns None.
unfoldable pub scan : List ℕ → Text → Option ℕ
scan [] rest = some 0
scan (top ∷ stack) [] = none
scan (top ∷ stack) (c ∷ rest) = elim (next_stack c top stack) [
  | none ↦ none
  | some stack' ↦ Option.map suc (scan stack' rest)
]

-- What a call gives: `failed` is an assertion that fails.
pub data Inside : Type 0 where
  found : Text → Inside
  nothing failed : Inside

abbrev cut : Text → Option ℕ → Inside
cut rest none = nothing
cut rest (some n) = found (take (n - 1) rest)

abbrev from_bracket : Text → Text → Inside
from_bracket [] rest = failed
from_bracket (c ∷ before) rest = elim (matching_punctuation c) [
  | none ↦ failed
  | some closer ↦ cut rest (scan (closer ∷ []) rest)
]

-- _GetTextInside; `before` of the match's end is the text up to `start_position`, nearest first
unfoldable pub get_text_inside : Text → Regex → Inside
unfolding scan
get_text_inside text start_pattern = elim (search start_pattern text) [
  | none ↦ nothing
  | some m ↦ from_bracket m.finish.before m.finish.rest
]
