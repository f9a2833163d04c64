-- ===== src/Cleanse.antt =====
-- Lines without comments and strings (clint.py:850-1030): `IsCppString`, `CleanseComments`,
-- `CleansedLines` and `CloseExpression`.
pub mod Quiet
pub mod Close
use mit_6172_fa15_project.Base.{
  ℕ, ◌+◌, ◌%◌, Bool, true, false, not, ◌&&◌, List, [], ◌∷◌, ◌++◌, Option, none, some, Text,
  if◌then◌else◌, ◌==◌, take, length, map, get_elem?,
}
use mit_6172_fa15_project.Str.{codes, count, replace, find?, rstrip}
use mit_6172_fa15_project.Regex.{Regex, star, char, group}
use mit_6172_fa15_project.Regex.Find.{matches}
use mit_6172_fa15_project.Regex.Sub.{sub}
use mit_6172_fa15_project.Regex.Notation.{
  lit, is, is_word, is_blank, is_any, is_digit, is_hex, spaces, plus, one_of, none_of, peek, eol,
  bol, ◌▸◌, ◌∣∣◌,
}

-- \\([abfnrtv?"\\\']|\d+|x[0-9a-fA-F]+)
unfoldable pub re_escapes : Regex
unfolding is one_of codes plus is_digit is_hex
re_escapes =
    is b'\\'
    ▸ (one_of (codes "abfnrtv?\"\\'") ∣∣ plus (char is_digit) ∣∣ is b'x' ▸ plus (char is_hex))

-- "[^"]*" and '.'
unfoldable pub re_double_quotes : Regex
unfolding is none_of
re_double_quotes = is b'"' ▸ star (none_of (b'"' ∷ [])) ▸ is b'"'

unfoldable pub re_single_quotes : Regex
unfolding is is_any
re_single_quotes = is b'\'' ▸ char is_any ▸ is b'\''

-- /\*.*\*/
unfoldable pub re_comment : Regex
unfolding lit is_any
re_comment = lit "/*" ▸ star (char is_any) ▸ lit "*/"

-- _RE_PATTERN_CLEANSE_LINE_C_COMMENTS
unfoldable pub re_c_comments : Regex
unfolding spaces eol plus peek is_blank is_word re_comment
re_c_comments =
    (spaces ▸ re_comment ▸ spaces ▸ eol)
    ∣∣ (re_comment ▸ plus (char is_blank))
    ∣∣ (plus (char is_blank) ▸ re_comment ▸ peek (char (λ c. not (is_word c))))
    ∣∣ re_comment

-- _RE_PATTERN_INCLUDE: ^\s*#\s*include\s*([<"])([^>"]*)[>"].*$
unfoldable pub re_include : Regex
unfolding bol spaces is lit one_of none_of eol is_any
re_include =
    bol
    ▸ spaces
    ▸ is b'#'
    ▸ spaces
    ▸ lit "include"
    ▸ spaces
    ▸ group 1 (one_of (b'<' ∷ b'"' ∷ []))
    ▸ group 2 (star (none_of (b'>' ∷ b'"' ∷ [])))
    ▸ one_of (b'>' ∷ b'"' ∷ [])
    ▸ star (char is_any)
    ▸ eol

-- IsCppString. The parity of a difference is that of the sum.
unfoldable pub is_cpp_string : Text → Bool
unfolding codes
is_cpp_string line =
    let line' = replace (codes "\\\\") (codes "XX") line in
    (count line' (codes "\"") + count line' (codes "\\\"") + count line' (codes "'\"'")) % 2 == 1

-- The part of the line in front of a comment `//` that stands in no string.
abbrev cut_comment : Text → Option ℕ → Text
cut_comment line none = line
cut_comment line (some commentpos) =
    if is_cpp_string (take commentpos line) then line else rstrip (take commentpos line)

-- CleanseComments
unfoldable pub cleanse_comments : Text → Text
unfolding codes
cleanse_comments line = sub re_c_comments [] (cut_comment line (find? line (codes "//")))

-- _CollapseStrings
unfoldable pub collapse_strings : Text → Text
unfolding codes
collapse_strings elided =
    if matches re_include elided
    then elided
    else sub re_double_quotes (codes "\"\"")
        (sub re_single_quotes (codes "''") (sub re_escapes [] elided))

pub record CleansedLines : Type 0 where
  pub elided : List Text
  pub lines : List Text
  pub raw_lines : List Text
  pub num_lines : ℕ

unfoldable pub cleansed_lines : List Text → CleansedLines
cleansed_lines lines = record {
  elided = map (λ line. cleanse_comments (collapse_strings line)) lines;
  lines = map cleanse_comments lines;
  raw_lines = lines;
  num_lines = length lines;
}
