-- ===== src/Classes/Patterns.antt =====
-- The patterns of CheckForNonStandardConstructs (clint.py:1381-1493).
use mit_6172_fa15_project.Base.{[], ◌∷◌, Text}
use mit_6172_fa15_project.Regex.{Regex, eps, char, star, group}
use mit_6172_fa15_project.Regex.Notation.{
  spaces, blanks, word, digits, is, lit, one_of, none_of, plus, opt, is_word, is_blank, is_capital,
  is_digit, is_any, bol, eol, boundary, ◌▸◌, ◌∣∣◌,
}

-- A text as a pattern: `re.escape` of it.
unfoldable pub escaped : Text → Regex
escaped [] = eps
escaped (c ∷ s) = is c ▸ escaped s

-- \s*(template\s*<[\w\s<>,:]*>\s*)?(class|struct)\s+([A-Z_]+\s+)*(\w+(::\w+)*)
unfoldable pub re_class_decl : Regex
unfolding spaces lit opt plus is is_word is_blank is_capital
re_class_decl =
    spaces
    ▸ opt (
        group 1 (
          lit "template"
          ▸ spaces
          ▸ is b'<'
          ▸ star (char is_word ∣∣ char is_blank ∣∣ is b'<' ∣∣ is b'>' ∣∣ is b',' ∣∣ is b':')
          ▸ is b'>'
          ▸ spaces))
    ▸ group 2 (lit "class" ∣∣ lit "struct")
    ▸ blanks
    ▸ star (group 3 (plus (char is_capital ∣∣ is b'_') ▸ blanks))
    ▸ group 4 (word ▸ star (group 5 (lit "::" ▸ word)))

-- (^|[^:]):($|[^:])
unfoldable pub re_bare_colon : Regex
unfolding bol eol none_of is
re_bare_colon =
    group 1 (bol ∣∣ none_of (b':' ∷ [])) ▸ is b':' ▸ group 2 (eol ∣∣ none_of (b':' ∷ []))

-- \s+(?:inline\s+)?%s\s*\(([^,()]+)\)
unfoldable pub re_constructor : Text → Regex
unfolding plus opt lit escaped spaces is none_of is_blank
re_constructor base =
    blanks
    ▸ opt (lit "inline" ▸ blanks)
    ▸ escaped base
    ▸ spaces
    ▸ is b'('
    ▸ group 1 (plus (none_of (b',' ∷ b'(' ∷ b')' ∷ [])))
    ▸ is b')'

-- (const\s+)?%s\s*(?:<\w+>\s*)?&
unfoldable pub re_copied : Text → Regex
unfolding plus opt lit escaped spaces is is_word is_blank
re_copied base =
    opt (group 1 (lit "const" ▸ blanks))
    ▸ escaped base
    ▸ spaces
    ▸ opt (is b'<' ▸ word ▸ is b'>' ▸ spaces)
    ▸ is b'&'

-- \bvirtual\b
unfoldable pub re_virtual : Regex
unfolding boundary lit
re_virtual = boundary ▸ lit "virtual" ▸ boundary

-- ~%s\s*\(, on a name with no special character
unfoldable pub re_destructor : Text → Regex
unfolding is escaped spaces
re_destructor base = is b'~' ▸ escaped base ▸ spaces ▸ is b'('

-- printf\s*\(.*".*%[-+ ]?\d*q
unfoldable pub re_quad : Regex
unfolding lit spaces is is_any opt one_of is_digit
re_quad =
    lit "printf"
    ▸ spaces
    ▸ is b'('
    ▸ star (char is_any)
    ▸ is b'"'
    ▸ star (char is_any)
    ▸ is b'%'
    ▸ opt (one_of (b'-' ∷ b'+' ∷ b' ' ∷ []))
    ▸ star (char is_digit)
    ▸ is b'q'

-- printf\s*\(.*".*%\d+\$
unfoldable pub re_positional : Regex
unfolding lit spaces is is_any plus is_digit
re_positional =
    lit "printf"
    ▸ spaces
    ▸ is b'('
    ▸ star (char is_any)
    ▸ is b'"'
    ▸ star (char is_any)
    ▸ is b'%'
    ▸ plus (char is_digit)
    ▸ is b'$'

-- ("|\').*\\(%|\[|\(|{)
unfoldable pub re_undefined_escape : Regex
unfolding is is_any
re_undefined_escape =
    group 1 (is b'"' ∣∣ is b'\'')
    ▸ star (char is_any)
    ▸ is b'\\'
    ▸ group 2 (is b'%' ∣∣ is b'[' ∣∣ is b'(' ∣∣ is b'{')

-- \b(const|volatile|void|char|short|int|long|float|double|signed|unsigned|schar|u?int8|u?int16
-- |u?int32|u?int64)\s+(auto|register|static|extern|typedef)\b
unfoldable pub re_storage_class : Regex
unfolding boundary lit opt is plus is_blank
re_storage_class =
    boundary
    ▸ group 1 (
        lit "const"
        ∣∣ lit "volatile"
        ∣∣ lit "void"
        ∣∣ lit "char"
        ∣∣ lit "short"
        ∣∣ lit "int"
        ∣∣ lit "long"
        ∣∣ lit "float"
        ∣∣ lit "double"
        ∣∣ lit "signed"
        ∣∣ lit "unsigned"
        ∣∣ lit "schar"
        ∣∣ opt (is b'u') ▸ lit "int8"
        ∣∣ opt (is b'u') ▸ lit "int16"
        ∣∣ opt (is b'u') ▸ lit "int32"
        ∣∣ opt (is b'u') ▸ lit "int64")
    ▸ blanks
    ▸ group 2 (lit "auto" ∣∣ lit "register" ∣∣ lit "static" ∣∣ lit "extern" ∣∣ lit "typedef")
    ▸ boundary

-- \s*#\s*endif\s*[^/\s]+
unfoldable pub re_endif_text : Regex
unfolding spaces is lit plus none_of
re_endif_text =
    spaces
    ▸ is b'#'
    ▸ spaces
    ▸ lit "endif"
    ▸ spaces
    ▸ plus (none_of (b'/' ∷ b' ' ∷ 9 ∷ 10 ∷ 11 ∷ 12 ∷ 13 ∷ []))

-- \s*class\s+(\w+\s*::\s*)+\w+\s*;
unfoldable pub re_inner_forward : Regex
unfolding spaces lit plus is_blank is_word is
re_inner_forward =
    spaces
    ▸ lit "class"
    ▸ blanks
    ▸ plus (group 1 (word ▸ spaces ▸ lit "::" ▸ spaces))
    ▸ word
    ▸ spaces
    ▸ is b';'

abbrev sign : Regex
sign = opt (one_of (b'+' ∷ b'-' ∷ []))

-- (\w+|[+-]?\d+(\.\d*)?)\s*(<|>)\?=?\s*(\w+|[+-]?\d+)(\.\d*)?
unfoldable pub re_min_max : Regex
unfolding plus is_word is_digit opt one_of is spaces
re_min_max =
    group 1 (word ∣∣ sign ▸ digits ▸ opt (group 2 (is b'.' ▸ star (char is_digit))))
    ▸ spaces
    ▸ group 3 (is b'<' ∣∣ is b'>')
    ▸ is b'?'
    ▸ opt (is b'=')
    ▸ spaces
    ▸ group 4 (word ∣∣ sign ▸ digits)
    ▸ opt (group 5 (is b'.' ▸ star (char is_digit)))

-- ^\s*const\s*string\s*&\s*\w+\s*;
unfoldable pub re_string_member : Regex
unfolding bol spaces lit is plus is_word
re_string_member =
    bol
    ▸ spaces
    ▸ lit "const"
    ▸ spaces
    ▸ lit "string"
    ▸ spaces
    ▸ is b'&'
    ▸ spaces
    ▸ word
    ▸ spaces
    ▸ is b';'
