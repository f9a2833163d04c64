-- ===== src/Regex/Notation.antt =====
-- Notation for the patterns of clint.py. The patterns are matched with no flags, so `\s`, `\w` and
-- `\d` are the ASCII classes.
use Prim.Native.Char.{code}
use Prim.Native.String.{String}
use mit_6172_fa15_project.Base.{
  ℕ, Bool, true, false, not, ◌&&◌, ◌||◌, [], ◌∷◌, ◌==◌, leb, if◌then◌else◌, is_some, Text, elem,
}
use mit_6172_fa15_project.Str.{lower_char}
use mit_6172_fa15_project.Regex.{Regex, eps, char, seq, alt, star, look}
use mit_6172_fa15_project.Regex.Find.{find_at}

abbrev pub within : ℕ → ℕ → ℕ → Bool
within lo hi c = leb lo c && leb c hi

-- \s
unfoldable pub is_blank : ℕ → Bool
is_blank c = c == b' ' || within 9 13 c

-- \d
unfoldable pub is_digit : ℕ → Bool
is_digit c = within b'0' b'9' c

-- [A-Z]
unfoldable pub is_capital : ℕ → Bool
is_capital c = within b'A' b'Z' c

-- [0-9a-fA-F]
unfoldable pub is_hex : ℕ → Bool
is_hex c = within b'0' b'9' c || within b'a' b'f' c || within b'A' b'F' c

-- \w
unfoldable pub is_word : ℕ → Bool
is_word c = within b'a' b'z' c || within b'A' b'Z' c || within b'0' b'9' c || c == b'_'

-- .
unfoldable pub is_any : ℕ → Bool
is_any c = not (c == b'\n')

unfoldable pub spaces : Regex
unfolding is_blank
spaces = star (char is_blank)

unfoldable pub plus : Regex → Regex
plus r = seq r (star r)

-- \s+, \w+, \d+ and .*
abbrev pub blanks : Regex
blanks = plus (char is_blank)

abbrev pub word : Regex
word = plus (char is_word)

abbrev pub digits : Regex
digits = plus (char is_digit)

abbrev pub anything : Regex
anything = star (char is_any)

-- [^…\s], with the characters of a text
unfoldable pub solid : Text → Regex
unfolding is_blank
solid l = char (λ c. not (elem c l || is_blank c))

unfoldable pub is : ℕ → Regex
is k = char (λ c. c == k)

-- A literal text.
unfoldable pub lit : String → Regex
unfolding is
lit String.[] = eps
lit (String.◌∷◌ c s) = seq (is (code c)) (lit s)

-- A literal text in lower case, matched with re.I.
unfoldable pub lit_any_case : String → Regex
unfolding lower_char
lit_any_case String.[] = eps
lit_any_case (String.◌∷◌ c s) = seq (char (λ x. lower_char x == code c)) (lit_any_case s)

unfoldable pub one_of : Text → Regex
one_of l = char (λ c. elem c l)

unfoldable pub none_of : Text → Regex
none_of l = char (λ c. not (elem c l))

unfoldable pub opt : Regex → Regex
opt r = alt r eps

-- A sequence of patterns; a choice of patterns.
infixr 20 ◌▸◌
abbrev pub ◌▸◌ : Regex → Regex → Regex
◌▸◌ = seq

infixr 15 ◌∣∣◌
abbrev pub ◌∣∣◌ : Regex → Regex → Regex
◌∣∣◌ = alt

at_start : Text → Bool
at_start [] = true
at_start _ = false

-- `$` also matches before a last newline.
at_end : Text → Bool
at_end [] = true
at_end (x ∷ []) = x == b'\n'
at_end _ = false

next_is_word : Text → Bool
next_is_word [] = false
next_is_word (x ∷ _) = is_word x

unfoldable pub bol : Regex
unfolding at_start
bol = look (λ before rest. at_start before)

unfoldable pub eol : Regex
unfolding at_end
eol = look (λ before rest. at_end rest)

-- \b
unfoldable pub boundary : Regex
unfolding next_is_word is_word
boundary =
    look (λ before rest. if next_is_word before then not (next_is_word rest) else next_is_word rest)

-- (?=r) and (?!r)
unfoldable pub peek : Regex → Regex
peek r = look (λ before rest. is_some (find_at r before rest))

unfoldable pub not_peek : Regex → Regex
not_peek r = look (λ before rest. not (is_some (find_at r before rest)))
