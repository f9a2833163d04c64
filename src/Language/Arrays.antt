-- ===== src/Language/Arrays.antt =====
-- `CheckLanguage` on variable-length arrays (clint.py:2755-2791), on the elided line.
use mit_6172_fa15_project.Base.{
  ℕ, Bool, true, false, not, ◌&&◌, ◌||◌, List, [], ◌∷◌, none, some, Text, if◌then◌else◌, ◌==◌,
  reverse,
}
use mit_6172_fa15_project.Str.{codes, contains, text_eq, starts_with}
use mit_6172_fa15_project.Regex.{Regex, char, star, group}
use mit_6172_fa15_project.Regex.Find.{match, matches, searches, group_of}
use mit_6172_fa15_project.Regex.Sub.{split_by}
use mit_6172_fa15_project.Regex.Notation.{
  spaces, word, digits, is, lit, one_of, opt, plus, is_word, is_any, is_blank, is_digit, is_hex,
  is_capital, within, ◌▸◌, ◌∣∣◌,
}
use mit_6172_fa15_project.Lint.{Event, error}
use mit_6172_fa15_project.Lint.Checked.{event_if}
use mit_6172_fa15_project.Language.Types.{text_of}

-- \s*(.+::)?(\w+) [a-z]\w*\[(.+)];
unfoldable pub re_array : Regex
unfolding spaces opt plus is_any lit is_word is
re_array =
    spaces
    ▸ opt (group 1 (plus (char is_any) ▸ lit "::"))
    ▸ group 2 word
    ▸ is b' '
    ▸ char (within b'a' b'z')
    ▸ star (char is_word)
    ▸ is b'['
    ▸ group 3 (plus (char is_any))
    ▸ lit "];"

-- \s|\+|\-|\*|\/|<<|>>]
unfoldable pub re_delimiter : Regex
unfolding is_blank is lit
re_delimiter = char is_blank ∣∣ is b'+' ∣∣ is b'-' ∣∣ is b'*' ∣∣ is b'/' ∣∣ lit "<<" ∣∣ lit ">>]"

-- sizeof\(.+\) and arraysize\(\w+\)
unfoldable pub re_sizeof : Regex
unfolding lit plus is_any is
re_sizeof = lit "sizeof(" ▸ plus (char is_any) ▸ is b')'

unfoldable pub re_arraysize : Regex
unfolding lit plus is_word is
re_arraysize = lit "arraysize(" ▸ word ▸ is b')'

-- 0[xX][0-9a-fA-F]+
unfoldable pub re_hexadecimal : Regex
unfolding is one_of plus is_hex codes
re_hexadecimal = is b'0' ▸ one_of (codes "xX") ▸ plus (char is_hex)

abbrev is_capital_or_digit : ℕ → Bool
is_capital_or_digit c = is_capital c || is_digit c

abbrev qualifier : Regex
qualifier = opt (group 1 (plus (char is_any) ▸ lit "::"))

-- k[A-Z0-9]\w* and (.+::)?k[A-Z0-9]\w*
unfoldable pub re_constant : Regex
unfolding is is_capital is_digit is_word
re_constant = is b'k' ▸ char is_capital_or_digit ▸ star (char is_word)

unfoldable pub re_qualified_constant : Regex
unfolding opt plus is_any lit re_constant
re_qualified_constant = qualifier ▸ re_constant

-- (.+::)?[A-Z][A-Z0-9_]*
unfoldable pub re_macro : Regex
unfolding opt plus is_any lit is_capital is_digit
re_macro = qualifier ▸ char is_capital ▸ star (char (λ c. is_capital_or_digit c || c == b'_'))

-- tok.lstrip('(') and tok.rstrip(')')
unfoldable pub strip_front : ℕ → Text → Text
strip_front c [] = []
strip_front c (x ∷ s) = let rest = strip_front c s in if x == c then rest else x ∷ s

unfoldable pub strip_parens : Text → Text
unfolding strip_front
strip_parens tok = reverse (strip_front b')' (reverse (strip_front b'(' tok)))

-- The tests of the stripped token, up to the one on sizeof.
unfoldable pub is_constant : Text → Bool
unfolding plus is_digit
is_constant [] = true
is_constant (c ∷ tok) =
    matches digits (c ∷ tok)
    || matches re_hexadecimal (c ∷ tok)
    || matches re_constant (c ∷ tok)
    || matches re_qualified_constant (c ∷ tok)
    || matches re_macro (c ∷ tok)

-- What a round of the loop does with a token.
pub data Verdict : Type 0 where
  constant skips_next variable : Verdict

unfoldable pub verdict_on : Text → Verdict
unfolding codes strip_parens is_constant
verdict_on tok =
    if searches re_sizeof tok || searches re_arraysize tok
    then constant
    else if is_constant (strip_parens tok)
    then constant
    else if starts_with (strip_parens tok) (codes "sizeof")
    then skips_next
    else variable

-- The loop over the tokens; the result is is_const.
unfoldable pub is_const : Bool → List Text → Bool
is_const skip_next [] = true
is_const true (tok ∷ tokens) = is_const false tokens
is_const false (tok ∷ tokens) =
    let verdict = verdict_on tok in
    let next = is_const (elim verdict [ skips_next ↦ true | _ ↦ false ]) tokens in
    elim verdict [ constant ↦ next | skips_next ↦ next | variable ↦ false ]

-- The declaration is one of an array with the size `size`.
unfoldable pub is_array_of : Text → Text → Bool
unfolding codes
is_array_of type_ size =
    not (text_eq type_ (codes "return"))
    && not (text_eq type_ (codes "delete"))
    && not (contains size (codes "]"))

abbrev array_events : Text → Text → ℕ → List Event
array_events type_ size linenum =
    event_if (is_array_of type_ size && not (is_const false (split_by re_delimiter size))) (
      error linenum (codes "runtime/arrays") 1 (
        codes
          "Do not use variable-length arrays.  Use an appropriately named ('k' followed by CamelCase) compile-time constant for the size."))

-- The check of a declaration of an array.
unfoldable pub check_arrays : Text → ℕ → List Event
unfolding codes group_of is_array_of
check_arrays line linenum = elim (match re_array line) [
  | none ↦ []
  | some m ↦ array_events (text_of (group_of m 2)) (text_of (group_of m 3)) linenum
]
