-- ===== src/Language/Casts.antt =====
-- `CheckLanguage` on references and casts (clint.py:2578-2639, 2658-2662), on the elided line.
use mit_6172_fa15_project.Base.{
  ℕ, ◌+◌, Bool, false, not, ◌&&◌, ◌||◌, List, [], ◌∷◌, ◌++◌, Option, none, some, Text,
  if◌then◌else◌, ltb, ◌==◌,
}
use mit_6172_fa15_project.Str.{codes}
use mit_6172_fa15_project.Regex.{Regex, char, star, group}
use mit_6172_fa15_project.Regex.Find.{search, matches, searches, group_of}
use mit_6172_fa15_project.Regex.Sub.{count_matches}
use mit_6172_fa15_project.Regex.Notation.{
  boundary, bol, spaces, blanks, word, digits, anything, is, lit, one_of, none_of, opt, plus,
  is_word, is_any, is_blank, is_digit, ◌▸◌, ◌∣∣◌,
}
use mit_6172_fa15_project.Lint.{Event, error}
use mit_6172_fa15_project.Lint.Checked.{event_if}
use mit_6172_fa15_project.Includes.Classify.{is_test_filename}

-- (?:[\w:]|<[^()]*>)+
abbrev type_name : Regex
type_name =
    plus (char (λ c. is_word c || c == b':') ∣∣ is b'<' ▸ star (none_of (codes "()")) ▸ is b'>')

-- (\s?&|&\s?)\w+
abbrev ampersand : Regex
ampersand = group 1 (opt (char is_blank) ▸ is b'&' ∣∣ is b'&' ▸ opt (char is_blank)) ▸ word

abbrev parameter : Regex
parameter = is b'(' ▸ star (none_of (codes "()")) ▸ boundary

-- \([^()]*\b(?:[\w:]|<[^()]*>)+(\s?&|&\s?)\w+
unfoldable pub re_reference : Regex
unfolding plus is_word is none_of opt is_blank boundary codes
re_reference = parameter ▸ type_name ▸ ampersand

-- \([^()]*\bconst\s+(?:typename\s+)?(?:struct\s+)?(?:[\w:]|<[^()]*>)+(\s?&|&\s?)\w+
unfoldable pub re_const_reference : Regex
unfolding plus is_word is none_of opt is_blank boundary codes lit
re_const_reference =
    parameter
    ▸ lit "const"
    ▸ blanks
    ▸ opt (lit "typename" ▸ blanks)
    ▸ opt (lit "struct" ▸ blanks)
    ▸ type_name
    ▸ ampersand

-- \([^()]*\b(?:[\w:]|<[^()]*>)+\s+const(\s?&|&\s?)[\w]+
unfoldable pub re_reference_const : Regex
unfolding plus is_word is none_of opt is_blank boundary codes lit
re_reference_const = parameter ▸ type_name ▸ blanks ▸ lit "const" ▸ ampersand

-- (swap|Swap|operator[<>][<>])\s*\(\s*(?:[\w:]|<.*>)+\s*&
unfoldable pub re_may_refer : Regex
unfolding lit one_of spaces is plus is_word is_any codes
re_may_refer =
    group 1 (lit "swap" ∣∣ lit "Swap" ∣∣ lit "operator" ▸ one_of (codes "<>") ▸ one_of (codes "<>"))
    ▸ spaces
    ▸ is b'('
    ▸ spaces
    ▸ plus (char (λ c. is_word c || c == b':') ∣∣ is b'<' ▸ anything ▸ is b'>')
    ▸ spaces
    ▸ is b'&'

-- line.split('{', 1)[0]
unfoldable pub before_brace : Text → Text
before_brace [] = []
before_brace (c ∷ line) = let rest = before_brace line in if c == b'{' then [] else c ∷ rest

-- More parameters are references than are references to something const.
unfoldable pub has_reference : Text → Bool
has_reference fnline =
    ltb (count_matches re_const_reference fnline + count_matches re_reference_const fnline)
      (count_matches re_reference fnline)

unfoldable pub check_references : Text → ℕ → List Event
unfolding codes before_brace has_reference
check_references line linenum =
    let fnline = before_brace line in
    event_if (has_reference fnline && not (searches re_may_refer fnline)) (
      error linenum (codes "runtime/references") 2
        (codes "Is this a non-const reference? If so, make const or use a pointer."))

-- (\bnew\s+)?\b(int|float|double|bool|char|int32|uint32|int64|uint64)\([^)]
unfoldable pub re_function_cast : Regex
unfolding opt boundary lit plus is_blank is none_of
re_function_cast =
    opt (group 1 (boundary ▸ lit "new" ▸ blanks))
    ▸ boundary
    ▸ group 2 (
        lit "int"
        ∣∣ lit "float"
        ∣∣ lit "double"
        ∣∣ lit "bool"
        ∣∣ lit "char"
        ∣∣ lit "int32"
        ∣∣ lit "uint32"
        ∣∣ lit "int64"
        ∣∣ lit "uint64")
    ▸ is b'('
    ▸ none_of (b')' ∷ [])

-- ^\s*MOCK_(CONST_)?METHOD\d+(_T)?\( and ^\s*MockCallback<.*>
unfoldable pub re_mock_method : Regex
unfolding bol spaces lit opt plus is_digit
re_mock_method =
    bol
    ▸ spaces
    ▸ lit "MOCK_"
    ▸ opt (group 1 (lit "CONST_"))
    ▸ lit "METHOD"
    ▸ digits
    ▸ opt (group 2 (lit "_T"))
    ▸ lit "("

unfoldable pub re_mock_callback : Regex
unfolding bol spaces lit is_any is
re_mock_callback = bol ▸ spaces ▸ lit "MockCallback<" ▸ anything ▸ is b'>'

abbrev is_mock : Text → Bool
is_mock line = matches re_mock_method line || matches re_mock_callback line

abbrev cast_error : ℕ → Text → Event
cast_error linenum type_ =
    error linenum (codes "readability/casting") 4
      (codes "Using deprecated casting style.  Use static_cast<" ++ type_ ++ codes ">(...) instead")

abbrev cast_events : Text → ℕ → Option Text → Option Text → List Event
cast_events line linenum none (some type_) =
    event_if (not (is_mock line)) (cast_error linenum type_)
cast_events line linenum _ _ = []

-- A cast in the form of a call, with no new in front of it.
unfoldable pub check_function_cast : Text → ℕ → List Event
unfolding codes group_of
check_function_cast line linenum = elim (search re_function_cast line) [
  | none ↦ []
  | some m ↦ cast_events line linenum (group_of m 1) (group_of m 2)
]

-- CheckCStyleCast, which returns at its first statement
unfoldable pub check_c_style_cast : Text → ℕ → List Event × Bool
check_c_style_cast line linenum = ([], false)

-- The three calls of it: the third where the second returns False.
unfoldable pub check_c_style_casts : Text → ℕ → List Event
unfolding check_c_style_cast
check_c_style_casts line linenum =
    (check_c_style_cast line linenum).0
    ++ (let (events, found) = check_c_style_cast line linenum in
        events ++ (if found then [] else (check_c_style_cast line linenum).0))

-- (&\([^)]+\)[\w(])|(&(static|dynamic|reinterpret)_cast\b)
unfoldable pub re_address_of_cast : Regex
unfolding lit plus none_of is is_word boundary
re_address_of_cast =
    group 1 (lit "&(" ▸ plus (none_of (b')' ∷ [])) ▸ is b')' ▸ char (λ c. is_word c || c == b'('))
    ∣∣ group 2 (
        is b'&'
        ▸ group 3 (lit "static" ∣∣ lit "dynamic" ∣∣ lit "reinterpret")
        ▸ lit "_cast"
        ▸ boundary)

unfoldable pub check_address_of_cast : Text → ℕ → List Event
unfolding codes
check_address_of_cast line linenum = event_if (searches re_address_of_cast line) (
    error linenum (codes "runtime/casting") 4 (
      codes
        "Are you taking an address of a cast?  This is dangerous: could be a temp var.  Take the address before doing the cast, rather than after"))

-- \bdynamic_cast<
unfoldable pub re_dynamic_cast : Regex
unfolding boundary lit
re_dynamic_cast = boundary ▸ lit "dynamic_cast<"

unfoldable pub check_rtti : Text → Text → ℕ → List Event
unfolding codes
check_rtti filename line linenum =
    event_if (searches re_dynamic_cast line && not (is_test_filename filename)) (
      error linenum (codes "runtime/rtti") 5 (
        codes
          "Do not use dynamic_cast<>.  If you need to cast within a class hierarchy, use static_cast<> to upcast.  Google doesn't support RTTI."))
