-- ===== src/Style/Width.antt =====
-- `GetLineWidth` (clint.py:2164). The functions of the module unicodedata are parameters.
use mit_6172_fa15_project.Base.{ℕ, ◌+◌, Bool, ◌||◌, [], ◌∷◌, Text, if◌then◌else◌}
use mit_6172_fa15_project.Str.{codes, text_eq}

-- What the module unicodedata says of a text and of a character: normalize('NFC', s),
-- east_asian_width(c), and whether combining(c) is not 0.
pub record UnicodeData : Type 0 where
  pub normalize : Text → Text
  pub east_asian_width : ℕ → Text
  pub is_combining : ℕ → Bool

module _ (data_ : UnicodeData) where
  -- east_asian_width(uc) in ('W', 'F')
  unfoldable pub is_wide : ℕ → Bool
  unfolding codes
  is_wide uc =
      text_eq (data_.east_asian_width uc) (codes "W")
      || text_eq (data_.east_asian_width uc) (codes "F")

  -- The columns of one character.
  unfoldable pub columns : ℕ → ℕ
  unfolding is_wide
  columns uc = if is_wide uc then 2 else if data_.is_combining uc then 0 else 1

  -- The loop over the characters.
  unfoldable pub width_of : Text → ℕ
  unfolding columns
  width_of [] = 0
  width_of (uc ∷ s) = columns uc + width_of s

  -- GetLineWidth; a line of a file is always Unicode text
  abbrev pub get_line_width : Text → ℕ
  get_line_width line = width_of (data_.normalize line)
