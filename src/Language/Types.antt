-- ===== src/Language/Types.antt =====
-- `CheckLanguage` on types and declarations (clint.py:2644-2686, 2715-2723, 2749, 2796-2822), on the
-- elided line.
use mit_6172_fa15_project.Base.{
  ℕ, Bool, false, not, ◌&&◌, ◌||◌, List, [], ◌∷◌, ◌++◌, Option, none, some, Text, if◌then◌else◌,
  ◌==◌, elem,
}
use mit_6172_fa15_project.Str.{codes, text_eq, starts_with}
use mit_6172_fa15_project.Regex.{Regex, eps, char, star, group}
use mit_6172_fa15_project.Regex.Find.{Hit, match, search, matches, searches, group_of}
use mit_6172_fa15_project.Regex.Notation.{
  boundary, bol, eol, spaces, word, anything, is, lit, none_of, opt, plus, is_word, is_any,
  is_blank, not_peek, ◌▸◌, ◌∣∣◌,
}
use mit_6172_fa15_project.Lint.{Event, error}
use mit_6172_fa15_project.Lint.Checked.{event_if}

-- ((?:|static +)(?:|const +))string +([a-zA-Z0-9_:]+)\b(.*)
unfoldable pub re_global_string : Regex
unfolding lit plus is is_word boundary is_any
re_global_string =
    group 1 ((eps ∣∣ lit "static" ▸ plus (is b' ')) ▸ (eps ∣∣ lit "const" ▸ plus (is b' ')))
    ▸ lit "string"
    ▸ plus (is b' ')
    ▸ group 2 (plus (char (λ c. is_word c || c == b':')))
    ▸ boundary
    ▸ group 3 anything

-- \s*(<.*>)?(::[a-zA-Z0-9_]+)?\s*\(([^"]|$)
unfoldable pub re_function_rest : Regex
unfolding spaces opt is is_any lit plus is_word none_of eol
re_function_rest =
    spaces
    ▸ opt (group 1 (is b'<' ▸ anything ▸ is b'>'))
    ▸ opt (group 2 (lit "::" ▸ word))
    ▸ spaces
    ▸ is b'('
    ▸ group 3 (none_of (b'"' ∷ []) ∣∣ eol)

-- m.group(i), for a group that every match sets
abbrev pub text_of : Option Text → Text
text_of none = []
text_of (some t) = t

abbrev string_events : Hit → ℕ → List Event
string_events m linenum = event_if (not (matches re_function_rest (text_of (group_of m 3)))) (
    error linenum (codes "runtime/string") 4 (
      codes "For a static/global string constant, use a C style string instead: \""
      ++ text_of (group_of m 1)
      ++ codes "char "
      ++ text_of (group_of m 2)
      ++ codes "[]\"."))

-- A string that is declared at the start of a line, other than a function.
unfoldable pub check_global_string : Text → ℕ → List Event
unfolding codes group_of
check_global_string line linenum = elim (match re_global_string line) [
  | none ↦ []
  | some m ↦ string_events m linenum
]

-- \b([A-Za-z0-9_]*_)\(\1\), at a place behind the text `before`. The group takes the whole of the
-- word in front of the bracket, since no character of the group is a bracket.
abbrev pub leading_word : Text → Text
leading_word [] = []
leading_word (c ∷ s) = let rest = leading_word s in if is_word c then c ∷ rest else []

abbrev pub ends_in_underscore : Text → Bool
ends_in_underscore [] = false
ends_in_underscore (c ∷ []) = c == b'_'
ends_in_underscore (c ∷ d ∷ s) = ends_in_underscore (d ∷ s)

unfoldable pub initializes_at : Text → Bool
unfolding is_word codes
initializes_at s =
    ends_in_underscore (leading_word s)
    && starts_with s (leading_word s ++ (codes "(" ++ (leading_word s ++ codes ")")))

abbrev pub follows_word : Text → Bool
follows_word [] = false
follows_word (c ∷ before) = is_word c

-- The search for a member that is initialized with itself.
unfoldable pub initializes_itself : Text → Text → Bool
unfolding initializes_at is_word
initializes_itself before [] = false
initializes_itself before (c ∷ s) =
    (not (follows_word before) && initializes_at (c ∷ s)) || initializes_itself (c ∷ before) s

unfoldable pub check_self_init : Text → ℕ → List Event
unfolding codes initializes_itself
check_self_init line linenum = event_if (initializes_itself [] line) (
    error linenum (codes "runtime/init") 4
      (codes "You seem to be initializing a member variable with itself."))

-- \bshort port\b and \bunsigned short port\b
unfoldable pub re_short_port : Regex
unfolding boundary lit
re_short_port = boundary ▸ lit "short port" ▸ boundary

unfoldable pub re_unsigned_short_port : Regex
unfolding boundary lit
re_unsigned_short_port = boundary ▸ lit "unsigned short port" ▸ boundary

-- \b(short|long(?! +double)|long long)\b
unfoldable pub re_basic_type : Regex
unfolding boundary lit not_peek plus is
re_basic_type =
    boundary
    ▸ group 1
        (lit "short" ∣∣ lit "long" ▸ not_peek (plus (is b' ') ▸ lit "double") ∣∣ lit "long long")
    ▸ boundary

abbrev basic_type : Option Hit → ℕ → List Event
basic_type none linenum = []
basic_type (some m) linenum =
    error linenum (codes "runtime/int") 4
      (codes "Use int16/int64/etc, rather than the C type " ++ text_of (group_of m 1))
    ∷ []

-- The C types short and long.
unfoldable pub check_basic_types : Text → ℕ → List Event
unfolding codes group_of
check_basic_types line linenum =
    if searches re_short_port line
    then event_if (not (searches re_unsigned_short_port line)) (
        error linenum (codes "runtime/int") 4
          (codes "Use \"unsigned short\" for ports, not \"short\""))
    else basic_type (search re_basic_type line) linenum

-- \boperator\s*&\s*\(\s*\) and \}\s*if\s*\( and \busing namespace\b
unfoldable pub re_unary_ampersand : Regex
unfolding boundary lit spaces is
re_unary_ampersand =
    boundary ▸ lit "operator" ▸ spaces ▸ is b'&' ▸ spaces ▸ is b'(' ▸ spaces ▸ is b')'

unfoldable pub re_if_behind_brace : Regex
unfolding is spaces lit
re_if_behind_brace = is b'}' ▸ spaces ▸ lit "if" ▸ spaces ▸ is b'('

unfoldable pub re_using_namespace : Regex
unfolding boundary lit
re_using_namespace = boundary ▸ lit "using namespace" ▸ boundary

unfoldable pub check_operator_and_if : Text → ℕ → List Event
unfolding codes
check_operator_and_if line linenum =
    event_if (searches re_unary_ampersand line) (
      error linenum (codes "runtime/operator") 4
        (codes "Unary operator& is dangerous.  Do not use it."))
    ++ event_if (searches re_if_behind_brace line) (
        error linenum (codes "readability/braces") 4
          (codes "Did you mean \"else if\"? If not, start a new line for \"if\"."))

unfoldable pub check_using : Text → ℕ → List Event
unfolding codes
check_using line linenum = event_if (searches re_using_namespace line) (
    error linenum (codes "build/namespaces") 5
      (codes "Do not use namespace using-directives.  Use using-declarations instead."))

-- \s*(DISALLOW_(EVIL_CONSTRUCTORS|COPY_AND_ASSIGN|IMPLICIT_CONSTRUCTORS))\(.*\);$
unfoldable pub re_disallow : Regex
unfolding spaces lit is is_any eol
re_disallow =
    spaces
    ▸ group 1 (
        lit "DISALLOW_"
        ▸ group 2 (lit "EVIL_CONSTRUCTORS" ∣∣ lit "COPY_AND_ASSIGN" ∣∣ lit "IMPLICIT_CONSTRUCTORS"))
    ▸ is b'('
    ▸ anything
    ▸ lit ");"
    ▸ eol

-- ^\s*}[\w\*,\s]*;
unfoldable pub re_class_end : Regex
unfolding bol spaces is is_word is_blank codes
re_class_end =
    bol
    ▸ spaces
    ▸ is b'}'
    ▸ star (char (λ c. is_word c || is_blank c || elem c (codes "*,")))
    ▸ is b';'

abbrev disallow_events : Option Hit → Option Text → ℕ → List Event
disallow_events (some m) (some next_line) linenum =
    event_if (not (searches re_class_end next_line)) (
      error linenum (codes "readability/constructors") 3
        (text_of (group_of m 1) ++ codes " should be the last thing in the class"))
disallow_events _ _ linenum = []

-- The macro that should stand last in a class, and the line behind it, where there is one.
unfoldable pub check_disallow : Text → Option Text → ℕ → List Event
unfolding codes group_of
check_disallow line next_line linenum = disallow_events (match re_disallow line) next_line linenum

-- \bnamespace\s*{
unfoldable pub re_unnamed_namespace : Regex
unfolding boundary lit spaces is
re_unnamed_namespace = boundary ▸ lit "namespace" ▸ spaces ▸ is b'{'

-- line[-1] == '\\'
abbrev ends_in_backslash : Text → Bool
ends_in_backslash [] = false
ends_in_backslash (c ∷ []) = c == b'\\'
ends_in_backslash (c ∷ d ∷ s) = ends_in_backslash (d ∷ s)

unfoldable pub check_unnamed_namespace : Text → Text → ℕ → List Event
unfolding codes
check_unnamed_namespace extension line linenum =
    event_if
      (text_eq extension (codes "h")
        && searches re_unnamed_namespace line
        && not (ends_in_backslash line))
      (error linenum (codes "build/namespaces") 4 (
        codes
          "Do not use unnamed namespaces in header files.  See http://google-styleguide.googlecode.com/svn/trunk/cppguide.xml#Namespaces for more information."))
