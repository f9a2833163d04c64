-- ===== src/Str.antt =====
-- The string methods of Python that clint.py calls, over lists of code points. An operation that
-- consults Unicode tables is written for ASCII letters, and for every white space character.
use Prim.Native.Char.{code}
pub mod Laws
use mit_6172_fa15_project.Base.{
  ℕ, zero, suc, ◌+◌, ◌-◌, Bool, true, false, ◌&&◌, ◌||◌, not, List, [], ◌∷◌, ◌++◌, map, reverse,
  Option, none, some, String, length, Text, ◌%◌, ◌/◌, ltb, leb, ◌==◌, if◌then◌else◌, is_some,
}
use mathlib.Core.Option

-- A literal.
unfoldable pub codes : String → Text
codes String.[] = []
codes (String.◌∷◌ c s) = code c ∷ codes s

-- a == b
unfoldable pub text_eq : Text → Text → Bool
text_eq [] [] = true
text_eq (x ∷ xs) (y ∷ ys) = if x == y then text_eq xs ys else false
text_eq _ _ = false

-- x in l, for a list of texts
unfoldable pub is_in : Text → List Text → Bool
unfolding text_eq
is_in x [] = false
is_in x (y ∷ ys) = if text_eq x y then true else is_in x ys

-- s.startswith(p)
unfoldable pub starts_with : Text → Text → Bool
starts_with s [] = true
starts_with [] (p ∷ ps) = false
starts_with (x ∷ xs) (p ∷ ps) = if x == p then starts_with xs ps else false

-- s.endswith(p)
unfoldable pub ends_with : Text → Text → Bool
unfolding starts_with
ends_with s p = starts_with (reverse s) (reverse p)

-- s.find(p), `none` for -1
unfoldable pub find? : Text → Text → Option ℕ
unfolding starts_with
find? [] p = if starts_with [] p then some 0 else none
find? (x ∷ xs) p = if starts_with (x ∷ xs) p then some 0 else Option.map suc (find? xs p)

-- p in s
unfoldable pub contains : Text → Text → Bool
unfolding find?
contains s p = is_some (find? s p)

-- s.count(p) for a `p` that is not empty. `skip` characters belong to the last occurrence.
count_from : Text → ℕ → Text → ℕ
count_from p skip [] = 0
count_from p (suc skip) (x ∷ xs) = count_from p skip xs
count_from p zero (x ∷ xs) =
    let hit = starts_with (x ∷ xs) p in
    (if hit then 1 else 0) + count_from p (if hit then length p - 1 else 0) xs

unfoldable pub count : Text → Text → ℕ
unfolding count_from starts_with
count s p = count_from p 0 s

-- s.count(c) for one character
unfoldable pub count_char : ℕ → Text → ℕ
count_char c [] = 0
count_char c (x ∷ xs) = (if x == c then 1 else 0) + count_char c xs

-- s.replace(p, new) for a `p` that is not empty
replace_from : Text → Text → ℕ → Text → Text
replace_from p new skip [] = []
replace_from p new (suc skip) (x ∷ xs) = replace_from p new skip xs
replace_from p new zero (x ∷ xs) =
    let hit = starts_with (x ∷ xs) p in
    (if hit then new else x ∷ []) ++ replace_from p new (if hit then length p - 1 else 0) xs

unfoldable pub replace : Text → Text → Text → Text
unfolding replace_from starts_with
replace p new s = replace_from p new 0 s

abbrev between : ℕ → ℕ → ℕ → Bool
between lo hi c = leb lo c && leb c hi

-- unicode.isspace
unfoldable pub is_space : ℕ → Bool
is_space c =
    between 9 13 c
    || between 28 32 c
    || c == 133
    || c == 160
    || c == 5760
    || c == 6158
    || between 8192 8202 c
    || between 8232 8233 c
    || c == 8239
    || c == 8287
    || c == 12288

unfoldable pub lstrip : Text → Text
unfolding is_space
lstrip [] = []
lstrip (x ∷ xs) = if is_space x then lstrip xs else x ∷ xs

unfoldable pub rstrip : Text → Text
unfolding lstrip
rstrip s = reverse (lstrip (reverse s))

unfoldable pub strip : Text → Text
unfolding rstrip
strip s = rstrip (lstrip s)

-- c.isspace() of a byte
unfoldable pub is_byte_space : ℕ → Bool
is_byte_space c = c == b' ' || between 9 13 c

unfoldable pub lstrip_bytes : Text → Text
unfolding is_byte_space
lstrip_bytes [] = []
lstrip_bytes (x ∷ xs) = if is_byte_space x then lstrip_bytes xs else x ∷ xs

-- s.strip(), for a string of bytes
unfoldable pub strip_bytes : Text → Text
unfolding lstrip_bytes
strip_bytes s = reverse (lstrip_bytes (reverse (lstrip_bytes s)))

-- `w` as a word in front of `ws`, unless it is empty
abbrev flush : Text → List Text → List Text
flush [] ws = ws
flush w ws = w ∷ ws

words_from : Text → Text → List Text
words_from w [] = flush w []
words_from w (x ∷ xs) =
    let next = words_from (if is_space x then [] else w ++ x ∷ []) xs in
    if is_space x then flush w next else next

-- s.split()
unfoldable pub words : Text → List Text
unfolding words_from is_space
words s = words_from [] s

split_from : ℕ → Text → Text → List Text
split_from c w [] = w ∷ []
split_from c w (x ∷ xs) =
    let next = split_from c (if x == c then [] else w ++ x ∷ []) xs in
    if x == c then w ∷ next else next

-- s.split(c)
unfoldable pub split : ℕ → Text → List Text
unfolding split_from
split c s = split_from c [] s

unfoldable pub lower_char : ℕ → ℕ
lower_char c = if between b'A' b'Z' c then c + 32 else c

-- s.lower()
unfoldable pub lower : Text → Text
unfolding lower_char
lower s = map lower_char s

-- c.isalnum()
unfoldable pub is_alnum : ℕ → Bool
is_alnum c = between b'a' b'z' c || between b'A' b'Z' c || between b'0' b'9' c

-- a > b
unfoldable pub text_gt : Text → Text → Bool
text_gt [] b = false
text_gt (x ∷ a) [] = true
text_gt (x ∷ a) (y ∷ b) = if x == y then text_gt a b else ltb y x

-- '%d' % n
decimal_from : ℕ → ℕ → Text → Text
decimal_from zero n out = out
decimal_from (suc f) n out =
    let out' = (n % 10 + b'0') ∷ out in
    let rest = decimal_from f (n / 10) out' in if ltb n 10 then out' else rest

unfoldable pub decimal : ℕ → Text
unfolding decimal_from
decimal n = decimal_from (suc n) n []
