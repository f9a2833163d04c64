-- ===== src/HeaderGuard/Variable/Letters.antt =====
-- The characters of the variable for a header guard (clint.py:1063).
use mit_6172_fa15_project.Base.{
  ℕ, Bool, true, false, ◌||◌, [], ◌∷◌, ◌++◌, Text, if◌then◌else◌, map, elem, length, suc, ◌+◌, ◌≡◌,
  refl, ap, ◌∙◌, arith, All, Bool-cases, inl, inr, ◌==◌, length-append,
}
use mit_6172_fa15_project.Str.{codes}
use mit_6172_fa15_project.Regex.Sub.{sub-char}
use mit_6172_fa15_project.Regex.Notation.{is_blank, is_word, is_capital, is_digit}
use mit_6172_fa15_project.HeaderGuard.Variable.{re_separator, upper_char, upper, guard_name}

-- [-./\s]
abbrev is_separator : ℕ → Bool
is_separator c = elem c (codes "-./") || is_blank c

-- A character of the names of files and directories that the function provides for.
unfoldable pub IsPlain : ℕ → Type 0
IsPlain c = (is_word c || is_separator c) ≡ true

-- A character of the names of macros: a capital letter, a digit or an underscore.
unfoldable pub IsMacroChar : ℕ → Type 0
IsMacroChar c = (is_capital c || is_digit c || c == b'_') ≡ true

-- What becomes of one character.
unfoldable pub guard_char : ℕ → ℕ
guard_char c = upper_char (if is_separator c then b'_' else c)

upper_char-IsMacroChar : (c : ℕ) → is_word c ≡ true → IsMacroChar (upper_char c)
unfolding IsMacroChar upper_char is_word is_capital is_digit
upper_char-IsMacroChar c h = ground arith

guard_char-IsMacroChar : (c : ℕ) → IsPlain c → IsMacroChar (guard_char c)
unfolding IsPlain IsMacroChar guard_char upper_char is_capital is_digit
guard_char-IsMacroChar c h = elim (Bool-cases (is_separator c)) [
  | inl y ↦ rw (guard_char, y) refl
  | inr n ↦ rw (guard_char, n) (upper_char-IsMacroChar c (word_left (is_word c) n h))
]
  where
    word_left : (b : Bool) → is_separator c ≡ false → (b || is_separator c) ≡ true → b ≡ true
    word_left true e f = refl
    word_left false e f = cc

map-guard_char :
    (s : Text) → upper (map (λ c. if is_separator c then b'_' else c) s) ≡ map guard_char s
unfolding upper guard_char
map-guard_char [] = refl
map-guard_char (c ∷ s) = ap (λ u. guard_char c ∷ u) (map-guard_char s)

guard_name-map : (name : Text) → guard_name name ≡ map guard_char name ++ codes "_"
unfolding guard_name re_separator codes
guard_name-map name =
    ap (λ u. upper u ++ codes "_") (sub-char is_separator b'_' name)
    ∙ ap (λ u. u ++ codes "_") (map-guard_char name)

All-guard : (name : Text) → All IsPlain name → All IsMacroChar (map guard_char name ++ codes "_")
unfolding IsMacroChar is_capital is_digit codes
All-guard [] h = (refl, tt)
All-guard (c ∷ name) h = (guard_char-IsMacroChar c h.0, All-guard name h.1)

length-map : (s : Text) → length (map guard_char s) ≡ length s
length-map [] = refl
length-map (c ∷ s) = ap suc (length-map s)

-- The variable for a name of letters, digits, underscores, dashes, dots, slashes and white space
-- consists of capital letters, digits and underscores, one for each character and one more.
pub guard_name-IsMacroChar :
    (name : Text)
    → All IsPlain name
    → All IsMacroChar (guard_name name) × (length (guard_name name) ≡ length name + 1)
unfolding codes
guard_name-IsMacroChar name h = rw (guard_name-map name) (All-guard name h, measured)
  where
    measured : length (map guard_char name ++ codes "_") ≡ length name + 1
    measured = omega (arith, length-append (map guard_char name) (codes "_"), length-map name)
